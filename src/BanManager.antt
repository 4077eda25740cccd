-- ===== src/BanManager.antt =====
-- The ban list of a jail, `BanManager` of fail2ban/server/banmanager.py. The lock makes each
-- operation one step, and `MyTime.time()` is the argument `now`. The texts of `getBanList` with
-- times and the DNS queries about the banned addresses are left out.
pub mod Add
pub mod Unban
pub mod Schedule
use fail2ban.Common.{
  ℕ, ◌+◌, ◌*◌, Bool, true, false, Option, none, some, List, [], ◌∷◌, ltb, leb, ◌==◌, if◌then◌else◌,
  length, keep, not,
}
use fail2ban.Common.Int.{ℤ, pos, ◌+ℤ◌, ◌-ℤ◌, ltb_ℤ, eqb_ℤ}
use fail2ban.Common.Dict.{Key, Dict, keys, values, lookup, contains, insert, erase, erase_all}
use fail2ban.Ticket.{
  Ticket, permanent, max_ticket_time, get_ban_time, set_ban_time, get_end_of_ban_time,
  incr_ban_count,
}

pub record BanManager (K : Type 0) : Type 0 where
  pub ban_list : Dict K (Ticket K)
  pub ban_time : ℤ
  pub ban_total : ℕ
  pub next_unban_time : ℤ

-- `BanManager()`
abbrev pub new_ban_manager : {K : Type 0} → BanManager K
new_ban_manager = record {
  ban_list = [];
  ban_time = pos 600;
  ban_total = 0;
  next_unban_time = max_ticket_time;
}

-- What `addBanTicket` reports in `reason`, with its result: added (and the ticket as it is then),
-- expired, or already banned, with the ticket of the ban list and whether its ban was prolonged.
pub data Added (K : Type 0) : Type 0 where
  added : Ticket K → Added K
  expired : Added K
  already : Ticket K → Bool → Added K

module _ {K : Type 0} where
  -- `eob`: the end of the ban of a ticket under the ban time of the manager
  unfoldable pub end_of_ban : BanManager K → Ticket K → ℤ
  end_of_ban m t = get_end_of_ban_time t m.ban_time

  unfoldable pub set_default_ban_time : ℤ → BanManager K → BanManager K
  set_default_ban_time b m = record m { ban_time = b }

  -- The new ban time of the listed ticket `old`, so that it ends no earlier than the new one.
  unfoldable pub prolonged : BanManager K → Ticket K → Ticket K → Ticket K
  prolonged m t old =
      let btm = get_ban_time t m.ban_time in
      let diftm = t.time -ℤ old.time in
      set_ban_time
        (if eqb_ℤ btm permanent then btm else if ltb_ℤ (pos 0) diftm then btm +ℤ diftm else btm) old

module _ {K : Type 0} ⦃key : Key K⦄ where
  -- `addBanTicket`, where the id is listed
  unfoldable pub add_listed : BanManager K → Ticket K → Ticket K → BanManager K × Added K
  unfolding end_of_ban prolonged
  add_listed m t old =
      if ltb_ℤ (end_of_ban m old) (end_of_ban m t)
      then (
        record m { ban_list = insert t.id (prolonged m t old) m.ban_list },
        already (prolonged m t old) true,
      )
      else (m, already old false)

  -- `addBanTicket`, where it is not
  unfoldable pub add_unlisted : BanManager K → Ticket K → BanManager K × Added K
  unfolding end_of_ban
  add_unlisted m t =
      let new = incr_ban_count 1 t in
      let eob = end_of_ban m t in
      (
        record m {
          ban_list = insert t.id new m.ban_list;
          ban_total = m.ban_total + 1;
          next_unban_time = if ltb_ℤ eob m.next_unban_time then eob else m.next_unban_time;
        },
        added new,
      )

  unfoldable pub add_ban_ticket : ℤ → Ticket K → BanManager K → BanManager K × Added K
  unfolding add_listed add_unlisted
  add_ban_ticket now t m =
      if ltb_ℤ (end_of_ban m t) now
      then (m, expired)
      else elim (lookup t.id m.ban_list) [ none ↦ add_unlisted m t | some old ↦ add_listed m t old ]

  -- `_inBanList`
  unfoldable pub in_ban_list : BanManager K → Ticket K → Bool
  in_ban_list m t = contains t.id m.ban_list

  -- `len(unBanList) / 2.0 <= len(banList) / 3.0`, or a new dict
  unfoldable pub remove_unbanned : Dict K (Ticket K) → Dict K (Ticket K) → Dict K (Ticket K)
  remove_unbanned unban d =
      if length unban == 0
      then d
      else if leb (3 * length unban) (2 * length d)
      then erase_all (keys unban) d
      else keep (λ e. not (contains e.0 unban)) d

-- The loop of `unBanList`: the tickets that it takes from the rest of the ban list, after `taken`
-- others, and the next time to check. Where it stops at `max_count`, that time is `stop`.
unfoldable pub unban_scan :
    {K : Type 0} → (Ticket K → ℤ) → ℤ → ℤ → ℕ → ℕ → ℤ → Dict K (Ticket K) → Dict K (Ticket K) × ℤ
unban_scan ends time stop max_count taken next [] = ([], next)
unban_scan ends time stop max_count taken next (e ∷ d) =
    let eob = ends e.1 in
    let later = unban_scan ends time stop max_count (taken + 1) next d in
    let kept = unban_scan ends time stop max_count taken (if ltb_ℤ eob next then eob else next) d in
    if ltb_ℤ eob time
    then (if leb max_count (taken + 1) then (e ∷ [], stop) else (e ∷ later.0, later.1))
    else kept

module _ {K : Type 0} ⦃key : Key K⦄ where
  unfoldable pub un_ban_list : ℤ → ℕ → BanManager K → BanManager K × List (Ticket K)
  unfolding unban_scan remove_unbanned end_of_ban
  un_ban_list time max_count m =
      if ltb_ℤ time m.next_unban_time
      then (m, [])
      else let (unban, next) =
          unban_scan (end_of_ban m) time m.next_unban_time max_count 0 max_ticket_time m.ban_list in
        (
          record m { ban_list = remove_unbanned unban m.ban_list; next_unban_time = next },
          values unban,
        )

  unfoldable pub flush_ban_list : BanManager K → BanManager K × List (Ticket K)
  flush_ban_list m = (record m { ban_list = [] }, values m.ban_list)

  -- `getTicketByID`, which takes the ticket off the list
  unfoldable pub get_ticket_by_id : K → BanManager K → BanManager K × Option (Ticket K)
  get_ticket_by_id fid m = (record m { ban_list = erase fid m.ban_list }, lookup fid m.ban_list)
