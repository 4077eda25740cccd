-- ===== src/Actions/Reload.antt =====
-- Which actions the end of a reload leaves, `reload` of fail2ban/server/actions.py.
use Prim.Native.String.{String}
use fail2ban.Common.{
  ◌≡◌, refl, sym, ap, ◌∙◌, Bool, true, false, not, Option, none, some, List, [], ◌∷◌, ◌++◌, inl,
  inr, Bool-cases, if◌then◌else◌, keep, ite, arith, length, ◌==◌,
}
use mathlib.Core.Path.{subst}
use fail2ban.Common.Dict.{
  Key, Dict, lookup, contains, erase, keys, Distinct, erase-Distinct, lookup-erase_self,
  lookup-erase_ne,
}
use fail2ban.Common.Dict.Sweep.{contains-keep}
use fail2ban.BanManager.{flush_ban_list}
use fail2ban.Actions.{
  Actions, Action, Answer, Call, stop, flush, check, reload, unban, Outcome-cases, returned,
  left_by, call_action, stop_each, stop_actions,
}
use fail2ban.Actions.Unbans.{
  delete_ban, flush_one, flush_each, flush_ban, reload_each, remove_obsolete, end_reload,
}
use fail2ban.Actions.Told.{call_action-actions, call_action-Distinct}
use fail2ban.Actions.Told.Keep.{contains-insert}
use fail2ban.Actions.Told.Unban.{un_ban_all_inv}
use fail2ban.Actions.Told.Remove.{delete_ban_keeps}

-- `contains`, of what is found
abbrev found_in : {A : Type 0} → Option A → Bool
found_in o = elim o [ none ↦ false | some _ ↦ true ]

no_obsolete :
    (touched name : Bool)
    → false ≡ (if touched then false else name)
    → name ≡ (if touched then name else false)
no_obsolete true name h = refl
no_obsolete false name h = sym h

twice :
    (touched name : Bool)
    → (if (if touched then false else name) then false else name)
      ≡ (if touched then name else false)
twice touched name = ground arith

no_elements : {A : Type 0} (xs : List A) → (length xs == 0) ≡ true → xs ≡ []
no_elements [] h = refl
no_elements (x ∷ xs) h = ground arith

module _ {N K : Type 0} ⦃name_key : Key N⦄ ⦃ban_key : Key K⦄
    (answer : List (N × Call K) → N → Call K → Answer) where
  -- The same names, each once
  SameNames : (N → Bool) → Actions N K → Type 0
  SameNames names s = Distinct s.actions × ((n : N) → contains n s.actions ≡ names n)

  call_action-SameNames :
      (names : N → Bool) (m : N) (c : Call K) (s : Actions N K)
      → SameNames names s
      → SameNames names (call_action answer m c s)
  unfolding SameNames
  call_action-SameNames names m c s (unique, same) = (
    call_action-Distinct answer m c s unique,
    λ n.
        call_action-actions answer (λ d. contains n d ≡ names n) m c s
          (λ epoch b d found same'.
            contains-insert n m (record b { ban_epoch = epoch }) d
            ∙ (elim (name_key.same n m) as (λ x. ite x true (contains n d) ≡ names n) [
              | yes here ↦ sym (sym same' ∙ rw here (ground (arith, found)))
              | no other ↦ same'
            ]))
          (same n),
  )

  flush_one-SameNames :
      (names : N → Bool) (e : N × Action) (s : Actions N K)
      → SameNames names s
      → SameNames names (left_by (flush_one answer e s))
  unfolding flush_one left_by
  flush_one-SameNames names e s h =
      let called = call_action answer e.0 flush s in
      let h' = call_action-SameNames names e.0 flush s h in
      let h'' = call_action-SameNames names e.0 check called h' in
      elim (Bool-cases e.1.can_flush) [
        | inr never ↦ rw (never) h
        | inl flushes ↦ elim (Bool-cases (answer s.calls e.0 flush).ok) [
          | inl fine ↦ rw (flushes, fine) h'
          | inr failed ↦ elim (Bool-cases e.1.can_check) [
            | inl checks ↦ elim (Bool-cases (answer called.calls e.0 check).ok) [
              | inl sane ↦ rw (flushes, failed, checks, sane) h''
              | inr broken ↦ rw (flushes, failed, checks, broken) h''
            ]
            | inr no_check ↦ rw (flushes, failed, no_check) h'
          ]
        ]
      ]

  flush_each-SameNames :
      (names : N → Bool) (d singles : Dict N Action) (s : Actions N K)
      → SameNames names s
      → SameNames names (left_by (flush_each answer d singles s))
  unfolding flush_each left_by
  flush_each-SameNames names [] singles s h = h
  flush_each-SameNames names (e ∷ d) singles s h =
      let one = flush_one-SameNames names e s h in
      elim (Outcome-cases (flush_one answer e s)) [
        | inr (s', failed) ↦ rw (flush_each, failed) (rw (failed, left_by) at one)
        | inl (single, s', called) ↦
            rw (flush_each, called)
              (flush_each-SameNames names d (if single then singles ++ (e ∷ []) else singles) s'
                (rw (called, left_by) at one))
      ]

  reload_each-SameNames :
      (names : N → Bool) (d : Dict N (List (String × String))) (s : Actions N K)
      → SameNames names s
      → SameNames names (left_by (reload_each answer d s))
  unfolding reload_each left_by
  reload_each-SameNames names [] s h = h
  reload_each-SameNames names (e ∷ d) s h =
      let next = call_action answer e.0 (reload e.1) s in
      let h' = call_action-SameNames names e.0 (reload e.1) s h in
      elim (Bool-cases (contains e.0 s.actions)) [
        | inr missing ↦ rw (reload_each, missing) (reload_each-SameNames names d s h)
        | inl there ↦ elim (Bool-cases (answer s.calls e.0 (reload e.1)).ok) [
          | inl fine ↦ rw (reload_each, there, fine) (reload_each-SameNames names d next h')
          | inr failed ↦ rw (reload_each, there, failed) h'
        ]
      ]

  -- Stopped actions are removed, and no others.
  stop_each_lem :
      {W : Type 0} (names : N → Bool) (d : Dict N W) (s : Actions N K)
      → SameNames names s
      → SameNames (λ n. if contains n d then false else names n) (stop_each answer (keys d) s)
  unfolding stop_each SameNames
  stop_each_lem names [] s h = h
  stop_each_lem names (e ∷ d) s h =
      let later = stop_each answer (keys d) s in
      let (unique, same) =
        call_action-SameNames (λ n. if contains n d then false else names n) e.0 stop later
          (stop_each_lem names d s h) in
      let acts = (call_action answer e.0 stop later).actions in
      (
        erase-Distinct e.0 acts unique,
        λ n.
            elim (name_key.same n e.0)
              as (λ x.
                contains n (erase e.0 acts)
                ≡ (if found_in (ite x (some e.1) (lookup n d)) then false else names n)) [
                  | yes here ↦ rw here (ap found_in (lookup-erase_self e.0 acts unique))
                  | no other ↦ ap found_in (lookup-erase_ne n e.0 acts other) ∙ same n
                ],
      )

  -- Unbans of some actions
  flush_ban-SameNames :
      (names : N → Bool) (d : Dict N Action) (s : Actions N K)
      → SameNames names s
      → SameNames names (left_by (flush_ban answer false (some d) s))
  unfolding flush_ban left_by SameNames
  flush_ban-SameNames names d s h =
      let loop = flush_each-SameNames names d [] s h in
      elim (Outcome-cases (flush_each answer d [] s)) [
        | inr (s', failed) ↦ rw (flush_ban, failed) (rw (failed, left_by) at loop)
        | inl (singles, s', flushed) ↦
            let kept = delete_ban_keeps false none s' in
            let (unique, same) = (rw (flushed, left_by) at loop) in
            rw (flush_ban, flushed)
              (un_ban_all_inv answer (SameNames names) singles (flush_ban_list s.ban_manager).1
                (delete_ban false none s') (λ n t x. call_action-SameNames names n (unban t) x)
                (subst (λ d. Distinct d × ((n : N) → contains n d ≡ names n)) (sym kept.0)
                  (unique, same)))
      ]

  remove_obsolete_lem :
      (names : N → Bool) (touched : Dict N (List (String × String))) (s s' : Actions N K)
      → SameNames names s
      → remove_obsolete answer touched s ≡ returned tt s'
      → SameNames (λ n. if contains n touched then names n else false) s' × (s'.reloading ≡ none)
  unfolding remove_obsolete left_by SameNames stop_actions
  remove_obsolete_lem names touched s s' h e =
      let obsolete = keep (λ e. not (contains e.0 touched)) s.actions in
      let are = λ (n : N).
        contains-keep n touched s.actions
        ∙ ap (λ b. if contains n touched then false else b) (h.1 n) in
      elim (Bool-cases (length obsolete == 0)) [
        | inl nothing ↦
            let ends = ap left_by (rw (remove_obsolete, nothing) at e) in
            let none_left : obsolete ≡ [] = no_elements obsolete nothing in
            (
              subst (SameNames (λ n. if contains n touched then names n else false)) ends (
                h.0,
                λ n.
                    h.1 n
                    ∙ no_obsolete (contains n touched) (names n)
                        (sym (ap (contains n) none_left) ∙ are n),
              ),
              sym (ap (λ (x : Actions N K). x.reloading) ends) ∙ refl,
            )
        | inr some_obsolete ↦
            let unbanned = flush_ban-SameNames names obsolete s h in
            elim (Outcome-cases (flush_ban answer false (some obsolete) s)) [
              | inr (s1, failed) ↦
                  let bad = rw (remove_obsolete, some_obsolete, failed) at e in absurd (cc)
              | inl (cnt, s1, flushed) ↦
                  let ends = ap left_by (rw (remove_obsolete, some_obsolete, flushed) at e) in
                  let stopped =
                    stop_each_lem names obsolete s1 (rw (flushed, left_by) at unbanned) in
                  (
                    subst (SameNames (λ n. if contains n touched then names n else false)) ends (
                      stopped.0,
                      λ n.
                          stopped.1 n
                          ∙ ap (λ b. if b then false else names n) (are n)
                          ∙ twice (contains n touched) (names n),
                    ),
                    sym (ap (λ (x : Actions N K). x.reloading) ends) ∙ refl,
                  )
            ]
      ]

  -- The end of a reload that raises nothing leaves exactly those actions that were there and that `add`
  -- noted in `_reload_actions` while it went on (those named again that have `reload` and
  -- `clearAllParams`, and no others), whatever the actions answer, and no reload is under way after it.
  pub end_reload_leaves :
      (touched : Dict N (List (String × String))) (s s' : Actions N K)
      → Distinct s.actions
      → s.reloading ≡ some touched
      → end_reload answer s ≡ returned tt s'
      → ((n : N)
          → contains n s'.actions ≡ (if contains n touched then contains n s.actions else false))
        × (s'.reloading ≡ none)
  unfolding end_reload left_by SameNames
  end_reload_leaves touched s s' unique under_way e =
      let names = λ (n : N). contains n s.actions in
      let loop = reload_each-SameNames names touched s (unique, λ n. refl) in
      elim (Outcome-cases (reload_each answer touched s)) [
        | inr (s1, failed) ↦ let bad = rw (end_reload, under_way, failed) at e in absurd (cc)
        | inl (u, s1, all) ↦
            let ends = rw (end_reload, under_way, all) at e in
            let ((distinct, left), over) =
              remove_obsolete_lem names touched s1 s' (rw (all, left_by) at loop) ends in
            (left, over)
      ]
