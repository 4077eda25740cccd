-- ===== src/Command/Stops.antt =====
-- Which commands a stop of an action runs, `stop` of
-- fail2ban/server/action.py: no command a second time for another family.
use fail2ban.Common.{
  ◌≡◌, refl, sym, ap, ◌∙◌, Bool, true, false, some, List, [], ◌∷◌, map, keep, if◌then◌else◌,
  Bool-cases, List-cases, inl, inr,
}
use mathlib.Core.Path.{subst}
use fail2ban.Common.Dict.{Key, Dict, values, Distinct}
use fail2ban.Common.Dict.Sweep.{IsAbsent-keys-keep}
use fail2ban.Command.{
  tag_key, action_start, action_stop, Flags, Run, Setup, Command, state_of, is_set, families_with,
  executed, get_operation, execute_each, execute_operation,
}
use fail2ban.Command.Calls.{after_stop, stop_command}
use fail2ban.Command.Memory.{Fresh, executed-forget_ne}
use fail2ban.Command.Invariant.{IsValid}
use fail2ban.Command.Once.{once_each, execute_each-once}
use fail2ban.Command.Kept.{forget-Kept}

module _ {F : Type 0} ⦃family_key : Key F⦄ (C : Type 0) where
  -- Started families are distinct.
  keep-Fresh :
      (p : F × Flags → Bool) (d : Dict F Flags)
      → Distinct d
      → Fresh {C = C} (map (λ e. e.0) (keep p d)) []
  keep-Fresh p [] h = tt
  keep-Fresh p (e ∷ d) h =
      elim (p e)
        as (λ b. Fresh {C = C} (map (λ e. e.0) (if b then e ∷ keep p d else keep p d)) []) [
          | true ↦ (refl, IsAbsent-keys-keep e.0 p d h.0, keep-Fresh p d h.1)
          | false ↦ keep-Fresh p d h.1
        ]

module _ {F C I : Type 0} ⦃family_key : Key F⦄ ⦃command_key : Key C⦄ where
  after_stop-executed :
      (f : F) (ret : Bool) (s : Command F C I)
      → executed action_stop (after_stop f ret s) ≡ executed action_stop s
  unfolding after_stop
  after_stop-executed f true s = executed-forget_ne action_stop action_start f s (λ x. absurd (cc))
  after_stop-executed f false s = refl

  after_stop-runs : (f : F) (ret : Bool) (s : Command F C I) → (after_stop f ret s).runs ≡ s.runs
  unfolding after_stop
  after_stop-runs f true s =
      forget-Kept {Allowed = λ t. ⊥} {P = λ s'. s'.runs ≡ s.runs}
        (record { runs = λ r s' a h. absurd a; memory = λ m s' h. h }) action_start f s refl
  after_stop-runs f false s = refl

  -- `stop` runs the stop commands of the started families in order, a text that is empty not at all,
  -- and a text that succeeded for one family not again for another, if none is in memory before.
  pub stop_command_runs :
      (setup : Setup F C I) (answer : List (Run F C I) → Run F C I → Bool) (text : F → C)
      (s : Command F C I)
      → ((f : F) → get_operation setup action_stop f ≡ some (text f))
      → IsValid s
      → executed action_stop s ≡ []
      → (state_of (stop_command setup answer s)).runs
        ≡ once_each setup answer action_stop text s.runs [] (families_with is_set s)
  unfolding stop_command state_of execute_operation families_with executed
  stop_command_runs setup answer text s texts h none' =
      let one =
        execute_each-once setup answer action_stop after_stop after_stop-executed after_stop-runs
          text texts in
      elim (List-cases (families_with is_set s)) [
        | inl e ↦ rw (stop_command, e) refl
        | inr (f, fs, e) ↦
            let start = record s { flags = [] } in
            let fresh : Fresh (f ∷ fs) (executed action_stop start) =
              subst (λ d. Fresh (f ∷ fs) d) (sym none')
                (subst (λ l. Fresh {C = C} l []) e
                  (keep-Fresh C (λ e. is_set e.1) s.flags h.distinct)) in
            elim (Bool-cases
              (execute_each setup answer action_stop after_stop (f ∷ fs) true start).0) [
                | inl ok ↦
                    rw (stop_command, e, ok)
                      (one (f ∷ fs) true start fresh
                        ∙ ap
                            (λ d.
                              once_each setup answer action_stop text s.runs (values d) (f ∷ fs))
                            none')
                | inr bad ↦
                    rw (stop_command, e, bad)
                      (one (f ∷ fs) true start fresh
                        ∙ ap
                            (λ d.
                              once_each setup answer action_stop text s.runs (values d) (f ∷ fs))
                            none')
              ]
      ]
