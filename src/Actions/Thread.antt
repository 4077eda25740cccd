-- ===== src/Actions/Thread.antt =====
-- The thread of the actions, `run` of fail2ban/server/actions.py, as rounds. A round is given the
-- time, whether `wait_for` saw a ticket in the queue, and whether the thread is still active after the
-- bans. Rounds that only wait in idle mode do nothing, and are left out.
use fail2ban.Common.{
  ℕ, ◌+◌, ◌*◌, Bool, true, false, not, ◌&&◌, none, List, [], ◌∷◌, ltb, leb, ◌==◌, if◌then◌else◌,
}
use fail2ban.Common.Int.{ℤ}
use fail2ban.Common.Dict.{Key}
use fail2ban.Actions.{Actions, Answer, Call, start, returned, raised, call_all, stop_actions}
use fail2ban.Actions.Bans.{check_ban}
use fail2ban.Actions.Unbans.{check_un_ban, flush_ban}

-- What happens to the thread: a round of its loop
pub record Round : Type 0 where
  pub now : ℤ
  pub pending : Bool
  pub active : Bool

module _ {N K : Type 0} ⦃name_key : Key N⦄ ⦃ban_key : Key K⦄
    (answer : List (N × Call K) → N → Call K → Answer) where
  -- The number of tickets that are unbanned at most, after `bancnt` bans
  unfoldable pub unban_count : ℕ → Actions N K → ℕ
  unban_count bancnt s =
      if (not (bancnt * 2 == 0)) && ltb (bancnt * 2) s.unban_max_count
      then bancnt * 2
      else s.unban_max_count

  -- The end of a round: unbans follow when nothing was banned, or enough since the last unbans.
  unfoldable pub end_round : Round → ℕ → ℕ → Actions N K → ℕ × Actions N K
  end_round r bancnt cnt s =
      if (if bancnt == 0 then true else leb s.ban_precedence cnt)
      then (0, if r.active then (check_un_ban answer r.now (unban_count bancnt s) s).1 else s)
      else (cnt, s)

  -- A round of the loop, with `cnt` bans since the last unbans; an exception ends the round.
  unfoldable pub thread_round : Round → ℕ × Actions N K → ℕ × Actions N K
  thread_round r (cnt, s) =
      if r.pending
      then elim (check_ban answer r.now s) [
        | raised s' ↦ (cnt, s')
        | returned n s' ↦ end_round r n (cnt + n) s'
      ]
      else end_round r 0 cnt s

  unfoldable pub thread_rounds : List Round → ℕ × Actions N K → ℕ × Actions N K
  thread_rounds [] x = x
  thread_rounds (r ∷ rs) x = thread_rounds rs (thread_round r x)

  -- `run`: the actions are started, rounds follow until the thread is stopped, and at the end all
  -- bans are repealed and the actions are stopped.
  unfoldable pub run_thread : List Round → Actions N K → Actions N K
  run_thread rs s =
      let started = call_all answer (λ a. false) start s.actions s in
      let worked = (thread_rounds rs (0, started)).1 in
      elim (flush_ban answer false none worked) [
        | raised s' ↦ s'
        | returned _ s' ↦ stop_actions answer s'.actions s'
      ]
