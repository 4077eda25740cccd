-- ===== src/Observer.antt =====
-- The observer of fail2ban/server/observer.py: `failureFound` and `banFound`, which run after the filter
-- and the actions have reported a failure or a ban. The rows that the database returns for an id are an
-- argument, `none` where there is no database; each has counted at least one ban, since only tickets of
-- the ban list are written there. Log lines are left out, and so are the handlers of exceptions, which
-- only log.
pub mod Failures
pub mod Bans
use fail2ban.Common.{
  ℕ, ◌+◌, ◌-◌, ◌/◌, ◌^◌, Bool, true, false, not, ◌&&◌, Option, none, some, List, [], ◌∷◌, ltb, leb,
  if◌then◌else◌, map,
}
use fail2ban.Common.Int.{ℤ, pos, ◌+ℤ◌, ◌-ℤ◌, ltb_ℤ, leb_ℤ, eqb_ℤ}
use fail2ban.Common.Dict.{Key, Dict, lookup, insert}
use fail2ban.Ticket.{Ticket, permanent, restored, set_ban_count, set_ban_time}
use fail2ban.FailManager.{FailManager, add_failure, is_same}
use fail2ban.BanTime.{BanTimeExtra, BanRow, larger, smaller, incr_ban_time}
use fail2ban.Filter.{Filter, perform_ban}

-- What the database tells of an id: its count of bans, the count that a failure stands for, which is
-- at most the limit of attempts, and the time of the last ban
pub record Known : Type 0 where
  pub ban_count : ℕ
  pub retry_count : ℕ
  pub time_of_ban : Option ℤ

-- What `banFound` does beside writing to the ticket: the seconds until `prolongBan` runs, if it is to
-- run, and whether the ticket is added to the database
pub record BanFound (K : Type 0) : Type 0 where
  pub ticket : Ticket K
  pub prolong_in : Option ℤ
  pub stored : Bool

-- `unixTime <= timeOfBan`
unfoldable pub is_before : ℤ → Option ℤ → Bool
is_before time none = false
is_before time (some ban) = leb_ℤ time ban

-- The delay of `prolongBan`
unfoldable pub prolong_delay : ℤ → ℤ → ℤ
prolong_delay btime oldbtime =
    let d = (btime -ℤ oldbtime) -ℤ pos 5 in
    let d' = if ltb_ℤ d (pos 0) then pos 0 else d in if ltb_ℤ (pos 10) d' then pos 10 else d'

-- `is not None`
abbrev pub is_there : {A : Type 0} → Option A → Bool
is_there none = false
is_there (some a) = true

module _ {K : Type 0} where
  -- The look-up of `failureFound`, with the limit of attempts
  unfoldable pub known_bans : Option (List BanRow) → ℕ → Ticket K → Known
  known_bans none max_retry t = record { ban_count = 0; retry_count = 1; time_of_ban = none }
  known_bans (some []) max_retry t = record {
    ban_count = 0;
    retry_count = smaller 1 max_retry;
    time_of_ban = none;
  }
  known_bans (some (row ∷ rows)) max_retry t =
      let n = larger row.ban_count t.ban_count in
      record {
        ban_count = n;
        retry_count = smaller (2 ^ (if ltb n 20 then n else 20) / 2 + 1) max_retry;
        time_of_ban = some row.time_of_ban;
      }

  -- A write to a ticket object
  unfoldable pub write_count : ℕ → Ticket K → Ticket K → Ticket K
  write_count n t q = if is_same q t then set_ban_count n false q else q

module _ {K : Type 0} ⦃key : Key K⦄ where
  -- `ticket.setBanCount(banCount)`, where the ticket stands on the failure list or in the queue
  unfoldable pub mark_bad : ℕ → Ticket K → Filter K → Filter K
  mark_bad n t f =
      let m = f.fail_manager in
      let listed : Dict K (Ticket K) = elim (lookup t.id m.fail_list) [
        | none ↦ m.fail_list
        | some g ↦ insert t.id (write_count n t g) m.fail_list
      ] in
      record f {
        fail_manager = record m { fail_list = listed };
        queue = map (write_count n t) f.queue;
      }

  -- `failureFound` after its checks: the ticket is counted again.
  unfoldable pub count_bad : ℤ → Known → Ticket K → Filter K → Filter K
  count_bad now k t f =
      let r = add_failure f.fail_manager t (k.retry_count - 1) true in
      let f' = mark_bad k.ban_count t (record f { fail_manager = r.0 }) in
      if leb f.fail_manager.max_retry r.1 then perform_ban now (some t.id) f' else f'

  -- `failureFound`
  unfoldable pub failure_found :
      ℤ → Bool → BanTimeExtra → Option (List BanRow) → Ticket K → Filter K → Filter K
  failure_found now alive be rows t f =
      let k = known_bans rows f.fail_manager.max_retry t in
      if alive && be.increment
      then (if is_before t.time k.time_of_ban
          then f
          else if leb k.retry_count 1
          then f
          else count_bad now k t f)
      else f

module _ {K : Type 0} where
  -- The first part of `banFound`: the new ban time, with the ticket
  unfoldable pub increased :
      Bool → BanTimeExtra → Option (List BanRow) → ℤ → Ticket K → ℤ × Ticket K
  increased alive be none btime t = (btime, t)
  increased alive be (some rows) btime t = incr_ban_time alive be rows btime t

  unfoldable pub ban_increased :
      Bool → BanTimeExtra → Option (List BanRow) → ℤ → Ticket K → ℤ × Ticket K
  ban_increased alive be rows btime t = elim t.ban_time [
    | some b ↦ (btime, t)
    | none ↦
        if eqb_ℤ btime permanent
        then (btime, t)
        else let r = increased alive be rows btime t in
          if (if eqb_ℤ r.0 permanent then true else ltb_ℤ btime r.0)
          then (r.0, set_ban_time r.0 r.1)
          else r
  ]

  -- `banFound`: what follows for the ticket with its new ban time
  unfoldable pub report_ban : ℤ → Bool → ℤ → ℤ × Ticket K → BanFound K
  report_ban now db oldbtime (btime, t) =
      if not (eqb_ℤ btime permanent) && ltb_ℤ (t.time +ℤ btime) now
      then record { ticket = t; prolong_in = none; stored = false }
      else record {
        ticket = t;
        prolong_in = if eqb_ℤ btime oldbtime then none else some (prolong_delay btime oldbtime);
        stored = db && not (restored t);
      }

  -- `banFound`
  unfoldable pub ban_found :
      ℤ → Bool → BanTimeExtra → Option (List BanRow) → Ticket K → ℤ → BanFound K
  ban_found now alive be rows t btime =
      if restored t
      then record { ticket = t; prolong_in = none; stored = false }
      else report_ban now (is_there rows) btime (ban_increased alive be rows btime t)
