-- ===== src/Actions/Told/Stop.antt =====
-- What is left when the thread of the actions ends, `run` of fail2ban/server/actions.py.
use fail2ban.Common.{
  ℕ, ◌≡◌, ◌∙◌, refl, ap, true, false, none, List, [], ◌∷◌, inl, inr, Bool-cases, if◌then◌else◌, leb,
  ◌==◌, ◌+◌,
}
use fail2ban.Common.Dict.{Key, contains, keys}
use fail2ban.Actions.{
  Actions, Answer, Call, start, stop, Outcome-cases, returned, left_by, call_all, stop_each,
  stop_actions,
}
use fail2ban.Actions.Bans.{check_ban}
use fail2ban.Actions.Unbans.{flush_ban}
use fail2ban.Actions.Thread.{Round, unban_count, end_round, thread_round, thread_rounds, run_thread}
use fail2ban.Actions.Told.{banned_by, call_action_keeps}
use fail2ban.Actions.Told.Keep.{InStep, call_all-InStep, ite_same}
use fail2ban.Actions.Told.Check.{check_queue-InStep}
use fail2ban.Actions.Told.Unban.{check_un_ban-InStep}
use fail2ban.Actions.Told.Flush.{flush_ban-InStep}

module _ {N K : Type 0} ⦃name_key : Key N⦄ ⦃ban_key : Key K⦄
    (answer : List (N × Call K) → N → Call K → Answer) where
  -- Stopping actions says nothing about ids.
  stop_each_told :
      (name : N) (id : K) (names : List N) (s : Actions N K)
      → banned_by name id (stop_each answer names s).calls ≡ banned_by name id s.calls
  unfolding stop_each
  stop_each_told name id [] s = refl
  stop_each_told name id (n ∷ names) s =
      ap (banned_by name id) (call_action_keeps answer n stop (stop_each answer names s)).1
      ∙ ite_same (name_key.same name n) _ _ refl
      ∙ stop_each_told name id names s

  module _ (name : N) where
    end_round-InStep :
        (r : Round) (bancnt cnt : ℕ) (s : Actions N K)
        → InStep name s
        → InStep name (end_round answer r bancnt cnt s).1
    unfolding end_round
    end_round-InStep r bancnt cnt s h =
        elim (Bool-cases (if bancnt == 0 then true else leb s.ban_precedence cnt)) [
          | inr later ↦ rw (end_round, later) h
          | inl due ↦ elim (Bool-cases r.active) [
            | inl active ↦
                rw (end_round, due, active)
                  (check_un_ban-InStep answer name r.now (unban_count answer bancnt s) s h)
            | inr stopped ↦ rw (end_round, due, stopped) h
          ]
        ]

    thread_round-InStep :
        (r : Round) (cnt : ℕ) (s : Actions N K)
        → InStep name s
        → InStep name (thread_round answer r (cnt, s)).1
    unfolding thread_round check_ban left_by end_round
    thread_round-InStep r cnt s h = elim (Bool-cases r.pending) [
      | inr nothing ↦ rw (thread_round, nothing) (end_round-InStep r 0 cnt s h)
      | inl pending ↦
          let next = check_queue-InStep answer name r.now s.ban_precedence 0 [] s h in
          elim (Outcome-cases (check_ban answer r.now s)) [
            | inr (s', e) ↦ rw (thread_round, pending, e) (rw (e, left_by) at next)
            | inl (n, s', e) ↦
                rw (thread_round, pending, e)
                  (end_round-InStep r n (cnt + n) s' (rw (e, left_by) at next))
          ]
    ]

    thread_rounds-InStep :
        (rs : List Round) (x : ℕ × Actions N K)
        → InStep name x.1
        → InStep name (thread_rounds answer rs x).1
    unfolding thread_rounds
    thread_rounds-InStep [] x h = h
    thread_rounds-InStep (r ∷ rs) x h =
        thread_rounds-InStep rs (thread_round answer r x) (thread_round-InStep r x.0 x.1 h)

    -- The thread starts the actions, works through any rounds and ends; the actions may answer
    -- anything. If the last flush ends without an exception, then the action was last told of every id
    -- that it is not banned. The action is one that takes restored tickets and cannot flush, and it
    -- starts in step with the ban list: it was last told to ban exactly the ids in the list.
    pub run_thread_repeals :
        (rs : List Round) (s worked : Actions N K) (cnt : ℕ) (id : K)
        → InStep name s
        → flush_ban answer false none
            (thread_rounds answer rs (0, call_all answer (λ a. false) start s.actions s)).1
          ≡ returned cnt worked
        → banned_by name id (run_thread answer rs s).calls ≡ false
    unfolding run_thread stop_actions
    run_thread_repeals rs s worked cnt id h ended =
        let started = call_all answer (λ a. false) start s.actions s in
        let last = (thread_rounds answer rs (0, started)).1 in
        let in_step =
          thread_rounds-InStep rs (0, started)
            (call_all-InStep answer name (λ a. false) start s.actions s (λ id. refl) h) in
        let (a, found, all, single) = in_step.plain in
        let (flushed, empty) =
          flush_ban-InStep answer name a false last cnt worked found single in_step ended in
        rw (run_thread, ended)
          (stop_each_told name id (keys worked.actions) worked
            ∙ flushed.told id
            ∙ ap (contains id) empty)
