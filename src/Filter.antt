-- ===== src/Filter.antt =====
-- The flow of a filter of fail2ban/server/filter.py after a line has been matched, with the queue of
-- its jail (fail2ban/server/jail.py) and the events for the observer. `now` is what `MyTime.time()`
-- returns during an operation. What `processLine` finds is an argument, and so is the answer of the
-- ignore list. Log lines and the sleep of `commonError` are left out.
pub mod Drain
pub mod Attempt
pub mod Errors
pub mod Dates
pub mod Dating
pub mod Follow
use fail2ban.Common.{
  ℕ, zero, suc, ◌+◌, ◌/◌, ◌%◌, Bool, true, false, ◌&&◌, ◌||◌, Option, none, some, List, [], ◌∷◌,
  ◌++◌, length, ltb, leb, ◌==◌, if◌then◌else◌,
}
use fail2ban.Common.Int.{ℤ, pos, ◌+ℤ◌, ltb_ℤ, leb_ℤ}
use fail2ban.Common.Dict.{Key}
use fail2ban.Ticket.{Ticket, Line, TicketData, new_ticket, fail_ticket}
use fail2ban.FailManager.{FailManager, add_failure, cleanup, to_ban}

-- What the filter reads and writes; `next_oid` numbers the tickets that it makes, and `observed` is
-- what was given to the observer, `none` where there is no observer.
pub record Filter (K : Type 0) : Type 0 where
  pub fail_manager : FailManager K
  pub queue : List (Ticket K)
  pub next_svc_time : ℤ
  pub errors : ℕ
  pub idle : Bool
  pub proc_lines : ℕ
  pub check_find_time : Bool
  pub observed : Option (List (Ticket K))
  pub next_oid : ℕ

-- An item of the list that `processLine` returns
pub record Found (K : Type 0) : Type 0 where
  pub id : K
  pub time : ℤ
  pub fail : TicketData

module _ {K : Type 0} where
  -- `putFailTicket`
  unfoldable pub put_fail_ticket : Ticket K → Filter K → Filter K
  put_fail_ticket t f = record f { queue = f.queue ++ (t ∷ []) }

  -- `getFailTicket`
  unfoldable pub get_fail_ticket : Filter K → Option (Ticket K × Filter K)
  get_fail_ticket f = elim f.queue [ [] ↦ none | t ∷ q ↦ some (t, record f { queue = q }) ]

  -- `Observers.Main.add('failureFound', ...)`
  unfoldable pub observe : Ticket K → Filter K → Filter K
  observe t f = elim f.observed [
    | none ↦ f
    | some ts ↦ record f { observed = some (ts ++ (t ∷ [])) }
  ]

  -- `commonError`
  unfoldable pub common_error : Filter K → Filter K
  common_error f =
      let n = f.errors + 1 in
      if leb 100 n then record f { errors = n / 2; idle = true } else record f { errors = n }

module _ {K : Type 0} ⦃key : Key K⦄ where
  unfoldable pub perform_svc : ℤ → Bool → Filter K → Filter K
  perform_svc now force f =
      if force || leb_ℤ f.next_svc_time now
      then record f { next_svc_time = now +ℤ pos 5; fail_manager = cleanup now f.fail_manager }
      else f

  -- The loop of `performBan` without an id. Each round takes a ticket out of the failure list, so as
  -- many rounds as the list has tickets are enough.
  unfoldable pub ban_loop : ℕ → Filter K → Filter K
  unfolding put_fail_ticket
  ban_loop zero f = f
  ban_loop (suc n) f = elim (to_ban none f.fail_manager) [
    | none ↦ f
    | some r ↦ ban_loop n (put_fail_ticket r.0 (record f { fail_manager = r.1 }))
  ]

  -- Its one round for an id
  unfoldable pub ban_one : K → Filter K → Filter K
  unfolding put_fail_ticket
  ban_one ip f = elim (to_ban (some ip) f.fail_manager) [
    | none ↦ f
    | some r ↦ put_fail_ticket r.0 (record f { fail_manager = r.1 })
  ]

  -- `performBan`
  unfoldable pub perform_ban : ℤ → Option K → Filter K → Filter K
  perform_ban now none f = perform_svc now false (ban_loop (length f.fail_manager.fail_list) f)
  perform_ban now (some ip) f = perform_svc now false (ban_one ip f)

  -- What `addAttempt` and `processLineAndAdd` do with a ticket that is not to be ignored
  unfoldable pub count_attempt : ℤ → ℕ → Ticket K → Filter K → Filter K
  unfolding observe
  count_attempt now count t f =
      let r = add_failure f.fail_manager t count false in
      let counted = record f { fail_manager = r.0 } in
      observe t (if leb r.0.max_retry r.1 then perform_ban now (some t.id) counted else counted)

  module _ (ignored : Ticket K → Bool) where
    -- `addAttempt`, with what it returns
    unfoldable pub add_attempt : ℤ → K → List Line → Filter K → Filter K × ℕ
    add_attempt now ip matches f =
        let t =
          new_ticket f.next_oid fail_ticket ip now (some now) matches
            (record { matches = none; failures = none }) in
        let f' = record f { next_oid = f.next_oid + 1 } in
        if ignored t
        then (f', 0)
        else (count_attempt now (if length matches == 0 then 1 else length matches) t f', 1)

    -- A round of the loop of `processLineAndAdd`
    unfoldable pub process_found : ℤ → Found K → Filter K → Filter K
    process_found now x f =
        let time = if f.check_find_time && ltb_ℤ now x.time then now else x.time in
        let t = new_ticket f.next_oid fail_ticket x.id now (some time) [] x.fail in
        let f' = record f { next_oid = f.next_oid + 1 } in
        if ignored t then f' else count_attempt now 1 t f'

    unfoldable pub process_all : ℤ → List (Found K) → Filter K → Filter K
    process_all now [] f = f
    process_all now (x ∷ xs) f = process_all now xs (process_found now x f)

    -- The end of `processLineAndAdd`
    unfoldable pub end_line : ℤ → Filter K → Filter K
    end_line now f =
        let f' = record f { proc_lines = f.proc_lines + 1 } in
        let f'' = if f'.proc_lines % 100 == 0 then perform_svc now false f' else f' in
        record f'' { errors = f''.errors / 2 }

    -- `processLineAndAdd`; `none` is an exception of `processLine`.
    unfoldable pub process_line_and_add : ℤ → Option (List (Found K)) → Filter K → Filter K
    process_line_and_add now none f = common_error f
    process_line_and_add now (some xs) f = end_line now (process_all now xs f)
