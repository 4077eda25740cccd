-- ===== src/Actions/Calls.antt =====
-- Which actions are called, and in which order, by the loops of fail2ban/server/actions.py.
use fail2ban.Common.{
  ◌≡◌, refl, ap, ◌∙◌, Bool, true, false, not, ◌&&◌, List, [], ◌∷◌, inl, inr, Bool-cases,
  Option-cases, keep, map,
}
use fail2ban.Common.Int.{ℤ}
use fail2ban.Common.Dict.{Key, Dict}
use fail2ban.Ticket.{Ticket, restored}
use fail2ban.Actions.{Actions, Action, Answer, Call, ban, unban, call_action, call_unless, call_all}
use fail2ban.Actions.Bans.{observe_ban, mark_banned, ban_added}
use fail2ban.Actions.Unbans.{un_ban}
use fail2ban.Actions.Told.{call_action_keeps}

-- A list in front of another, the last element first
abbrev pub newest_first : {A : Type 0} → List A → List A → List A
newest_first [] log = log
newest_first (x ∷ xs) log = newest_first xs (x ∷ log)

module _ {N K : Type 0} ⦃name_key : Key N⦄ ⦃ban_key : Key K⦄
    (answer : List (N × Call K) → N → Call K → Answer) where
  -- A loop calls each of its actions that it does not skip once, in order, whatever they answer.
  call_all_calls :
      (skip : Action → Bool) (c : Call K) (d : Dict N Action) (s : Actions N K)
      → (call_all answer skip c d s).calls
        ≡ newest_first (map (λ e. (e.0, c)) (keep (λ e. not (skip e.1)) d)) s.calls
  unfolding call_all call_unless
  call_all_calls skip c [] s = refl
  call_all_calls skip c (e ∷ d) s =
      let rest = call_all_calls skip c d in
      elim (Bool-cases (skip e.1)) [
        | inl out ↦ rw (call_all, out) (rest s)
        | inr called ↦
            rw (call_all, called)
              (rest (call_action answer e.0 c s)
                ∙ ap (newest_first (map (λ e. (e.0, c)) (keep (λ e. not (skip e.1)) d)))
                    (call_action_keeps answer e.0 c s).1)
      ]

  keep_everything : (d : Dict N Action) → keep (λ e. true) d ≡ d
  keep_everything [] = refl
  keep_everything (e ∷ d) = ap (◌∷◌ e) (keep_everything d)

  -- An unban calls every given action once, in order, also where some of them fail.
  pub un_ban_calls :
      (d : Dict N Action) (t : Ticket K) (s : Actions N K)
      → (un_ban answer d t s).calls ≡ newest_first (map (λ e. (e.0, unban t)) d) s.calls
  unfolding un_ban
  un_ban_calls d t s =
      call_all_calls (λ a. false) (unban t) d s
      ∙ ap (λ d. newest_first (map (λ e. (e.0, unban t)) d) s.calls) (keep_everything d)

  observe_ban-calls :
      (t : Ticket K) (btime : ℤ) (s : Actions N K) → (observe_ban t btime s).calls ≡ s.calls
  unfolding observe_ban
  observe_ban-calls t btime s = elim (Option-cases s.observed) [
    | inl nobody ↦ rw (observe_ban, nobody) refl
    | inr (ts, there) ↦ elim (Bool-cases (restored t)) [
      | inl old ↦ rw (observe_ban, there, old) refl
      | inr new ↦ rw (observe_ban, there, new) refl
    ]
  ]

  -- A new ban calls every action once, in order, also where some of them fail; for a restored ticket
  -- those are left out that take none.
  pub ban_added_calls :
      (t : Ticket K) (btime : ℤ) (s : Actions N K)
      → (ban_added answer t btime s).calls
        ≡ newest_first
            (map (λ e. (e.0, ban t)) (keep (λ e. not (restored t && e.1.no_restored)) s.actions))
            s.calls
  unfolding ban_added mark_banned
  ban_added_calls t btime s =
      call_all_calls (λ a. restored t && a.no_restored) (ban t) s.actions (observe_ban t btime s)
      ∙ ap
          (newest_first
            (map (λ e. (e.0, ban t)) (keep (λ e. not (restored t && e.1.no_restored)) s.actions)))
          (observe_ban-calls t btime s)
