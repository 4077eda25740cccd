-- ===== src/Actions/Told/Ban.antt =====
-- `__checkBan` and `__reBan` of fail2ban/server/actions.py keep the actions in step with the ban list.
use fail2ban.Common.{
  ◌≡◌, refl, sym, ap, ◌∙◌, true, ◌&&◌, List, [], ◌∷◌, ite, arith, inl, inr, Bool-cases,
  Option-cases,
}
use mathlib.Core.Path.{subst}
use fail2ban.Common.Int.{ℤ}
use fail2ban.Common.Dict.{Key, Dict, contains, insert, Distinct, insert-Distinct}
use fail2ban.Common.Dict.Entries.{Entries, insert-Entries}
use fail2ban.Ticket.{Ticket, restored, set_banned}
use fail2ban.BanManager.{BanManager}
use fail2ban.Actions.{Actions, Action, Answer, Call, ban, reban, call_action, call_all}
use fail2ban.Actions.Bans.{observe_ban, actions_or, mark_banned, reban_each, re_ban}
use fail2ban.Actions.Told.{
  effect, banned_by, IsPlain, call_all_inv, call_all_told, call_action_keeps, call_action-IsPlain,
  call_action-Distinct,
}
use fail2ban.Actions.Told.Keep.{InStep, InStepAt, IsNeutral, contains-insert, call_action-InStepAt}

module _ {N K : Type 0} ⦃name_key : Key N⦄ ⦃ban_key : Key K⦄
    (answer : List (N × Call K) → N → Call K → Answer) (name : N) where
  abbrev pub IsListed : K → BanManager K → Type 0
  IsListed id m = contains id m.ban_list ≡ true

  -- Telling an action again of a listed id changes nothing.
  reban-IsNeutral :
      (t : Ticket K) (m : BanManager K) → IsListed t.id m → IsNeutral answer name (reban t) m
  reban-IsNeutral t m listed id =
      elim (ban_key.same id t.id)
        as (λ x. ite x true (contains id m.ban_list) ≡ contains id m.ban_list) [
          | yes same ↦ sym (subst (λ k. contains k m.ban_list ≡ true) (sym same) listed)
          | no other ↦ refl
        ]

  reban_each-InStepAt :
      (t : Ticket K) (m : BanManager K) (d : Dict N Action) (s : Actions N K)
      → IsListed t.id m
      → InStepAt answer name m s
      → InStepAt answer name m (reban_each answer t d s).1
  unfolding reban_each
  reban_each-InStepAt t m [] s listed h = h
  reban_each-InStepAt t m (e ∷ d) s listed h =
      let next =
        call_action-InStepAt answer name e.0 (reban t) m s (reban-IsNeutral t m listed) h in
      elim (Bool-cases (answer s.calls e.0 (reban t)).ok) [
        | inl fine ↦
            rw (fine) (reban_each-InStepAt t m d (call_action answer e.0 (reban t) s) listed next)
        | inr failed ↦ rw (failed) next
      ]

  -- A listed ticket is written to under its id.
  pub write_listed :
      (t : Ticket K) (new : Ticket K) (s : Actions N K)
      → IsListed t.id s.ban_manager
      → new.id ≡ t.id
      → InStep name s
      → InStep name (record s {
        ban_manager = record s.ban_manager { ban_list = insert t.id new s.ban_manager.ban_list };
      })
  write_listed t new s listed same h = record {
    plain = h.plain;
    unique = h.unique;
    distinct = insert-Distinct t.id new s.ban_manager.ban_list h.distinct;
    owned = insert-Entries (λ k t. t.id ≡ k) t.id new s.ban_manager.ban_list same h.owned;
    told = λ id.
        h.told id
        ∙ sym (
            contains-insert id t.id new s.ban_manager.ban_list
            ∙ reban-IsNeutral t s.ban_manager listed id);
  }

  pub mark_banned-InStep :
      (t : Ticket K) (s : Actions N K)
      → IsListed t.id s.ban_manager
      → InStep name s
      → InStep name (mark_banned t s)
  unfolding mark_banned set_banned
  mark_banned-InStep t s listed h = write_listed t _ s listed refl h

  pub re_ban-InStep :
      (t : Ticket K) (acts : Dict N Action) (s : Actions N K)
      → IsListed t.id s.ban_manager
      → InStep name s
      → InStep name (re_ban answer t acts s).1
  unfolding re_ban
  re_ban-InStep t acts s listed h =
      let r = reban_each answer t (actions_or acts s.actions) s in
      let called =
        reban_each-InStepAt t s.ban_manager (actions_or acts s.actions) s listed (h, refl) in
      elim (Bool-cases r.0) [
        | inl all ↦
            rw (all)
              (mark_banned-InStep t r.1 (subst (IsListed t.id) (sym called.1) listed) called.0)
        | inr failed ↦ rw (failed) called.0
      ]

  observe_ban_keeps :
      (t : Ticket K) (btime : ℤ) (s : Actions N K)
      → ((observe_ban t btime s).actions ≡ s.actions)
        × ((observe_ban t btime s).calls ≡ s.calls)
        × ((observe_ban t btime s).ban_manager ≡ s.ban_manager)
  unfolding observe_ban
  observe_ban_keeps t btime s = elim (Option-cases s.observed) [
    | inl nobody ↦ rw (observe_ban, nobody) (refl, refl, refl)
    | inr (ts, there) ↦ elim (Bool-cases (restored t)) [
      | inl old ↦ rw (observe_ban, there, old) (refl, refl, refl)
      | inr new ↦ rw (observe_ban, there, new) (refl, refl, refl)
    ]
  ]

  -- A new ticket in the ban list, and the call of all actions to ban it
  pub new_ban-InStep :
      (t : Ticket K) (btime : ℤ) (m : BanManager K) (s : Actions N K)
      → m.ban_list ≡ insert t.id t s.ban_manager.ban_list
      → InStep name s
      → let s' =
          call_all answer
            (λ a. restored t && a.no_restored)
            (ban t)
            s.actions
            (observe_ban t btime (record s { ban_manager = m })) in
        InStep name s' × (s'.ban_manager ≡ m)
  new_ban-InStep t btime m s put h =
      let skip = λ (a : Action). restored t && a.no_restored in
      let s' = record s { ban_manager = m } in
      let start' = observe_ban t btime s' in
      let kept = observe_ban_keeps t btime s' in
      let inv =
        λ (P : Actions N K → Type 0)
            (keeps : (n : N) (s : Actions N K) → P s → P (call_action answer n (ban t) s))
            (h : P start').
          call_all_inv answer P skip (ban t) s.actions start' keeps h in
      let (a, found, all, single) = h.plain in
      let manager : (call_all answer skip (ban t) s.actions start').ban_manager ≡ m =
        inv (λ x. x.ban_manager ≡ m) (λ n x e. (call_action_keeps answer n (ban t) x).0 ∙ e)
          kept.2 in
      let list = ap (λ (m : BanManager K). m.ban_list) manager ∙ put in
      (
        record {
          plain =
              inv (λ x. IsPlain name x.actions)
                (λ n x e. call_action-IsPlain answer name n (ban t) x e)
                (subst (IsPlain name) (sym kept.0) h.plain);
          unique =
              inv (λ x. Distinct x.actions) (λ n x e. call_action-Distinct answer n (ban t) x e)
                (subst Distinct (sym kept.0) h.unique);
          distinct =
              subst Distinct (sym list) (insert-Distinct t.id t s.ban_manager.ban_list h.distinct);
          owned =
              subst (Entries (λ k t. t.id ≡ k)) (sym list)
                (insert-Entries (λ k t. t.id ≡ k) t.id t s.ban_manager.ban_list refl h.owned);
          told = λ id.
              call_all_told answer name id skip (ban t) a s.actions start' h.unique found
                (ground arith)
              ∙ ap (λ log. effect id (ban t) (banned_by name id log)) kept.1
              ∙ ap (effect id (ban t)) (h.told id)
              ∙ sym (ap (contains id) list ∙ contains-insert id t.id t s.ban_manager.ban_list);
        },
        manager,
      )
