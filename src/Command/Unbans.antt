-- ===== src/Command/Unbans.antt =====
-- What `unban` of fail2ban/server/action.py changes where unbans are not repaired.
use fail2ban.Common.{
  ◌≡◌, refl, sym, ap, ◌∙◌, ℕ, zero, suc, ◌+◌, Bool, true, false, not, ◌&&◌, ◌||◌, Option, none,
  some, List, [], ◌∷◌, ◌++◌, All, ◌⊎◌, inl, inr, Bool-cases, Option-cases, ltb, if◌then◌else◌,
}
use mathlib.Core.List.{append_assoc, append-nil}
use fail2ban.Common.Dict.{Key, contains}
use fail2ban.Command.{
  Tag, tag_key, tag_discrete, action_unban, action_check, Run, Setup, Command, Exit, returns,
  runtime_error, state_of, same, flags_of, execute_cmd, get_operation,
}
use fail2ban.Command.Calls.{
  Check, sane, not_repaired, broken, invariant_check, check_round, process_round, process_loop,
  process_cmd, unban_command,
}
use fail2ban.Command.Methods.{and_then-Kept}

module _ {A : Type 0} where
  All-append : (P : A → Type 0) (xs : List A) (y : A) → All P xs → P y → All P (xs ++ (y ∷ []))
  All-append P [] y h hy = (hy, tt)
  All-append P (x ∷ xs) y h hy = (h.0, All-append P xs y h.1 hy)

module _ {F C I : Type 0} where
  -- A run of the command of the unban or of the check, for a family
  abbrev pub IsUnbanRun : F → Run F C I → Type 0
  IsUnbanRun f r = ((r.tag ≡ action_unban) ⊎ (r.tag ≡ action_check)) × (r.family ≡ f)

  -- Two states that differ only in such runs, which the second has after those of the first
  abbrev pub OnlyRuns : F → Command F C I → Command F C I → Type 0
  OnlyRuns f s s' =
      (new : List (Run F C I)) × (s' ≡ record s { runs = s.runs ++ new }) × All (IsUnbanRun f) new

  OnlyRuns-same : (f : F) (s : Command F C I) → OnlyRuns f s s
  OnlyRuns-same f s = ([], ap (λ x. record s { runs = x }) (sym (append-nil s.runs)), tt)

module _ {F C I : Type 0} ⦃family_key : Key F⦄ ⦃command_key : Key C⦄ (setup : Setup F C I)
    (answer : List (Run F C I) → Run F C I → Bool) (s : Command F C I) where
  execute_cmd-OnlyRuns :
      (tag : Tag) (f : F) (info : Option I) (c : C) (s' : Command F C I)
      → (tag ≡ action_unban) ⊎ (tag ≡ action_check)
      → OnlyRuns f s s'
      → OnlyRuns f s (execute_cmd setup answer tag f info c s').1
  unfolding execute_cmd
  execute_cmd-OnlyRuns tag f info c s' named (new, e, all) = elim (Bool-cases (setup.is_empty c)) [
    | inl empty ↦ rw (execute_cmd, empty) (new, e, all)
    | inr full ↦
        let r : Run F C I = record { tag = tag; family = f; info = info; command = c } in
        rw (execute_cmd, full)
          (
            new ++ (r ∷ []),
            ap (λ (x : Command F C I). record x { runs = x.runs ++ (r ∷ []) }) e
                ∙ ap (λ x. record s { runs = x }) (append_assoc s.runs new (r ∷ [])),
            All-append (IsUnbanRun f) new r all (named, refl),
          )
  ]

  invariant_check-OnlyRuns :
      (f : F) (may_repair force : Bool) (s' : Command F C I)
      → may_repair ≡ false
      → OnlyRuns f s s'
      → OnlyRuns f s (state_of (invariant_check setup answer f may_repair force s'))
  unfolding invariant_check state_of
  invariant_check-OnlyRuns f may_repair force s' never h =
      elim (Bool-cases (not force && not (contains f s'.flags))) [
        | inl e ↦ rw (invariant_check, e) h
        | inr e ↦ elim (Option-cases (get_operation setup action_check f)) [
          | inl e' ↦ rw (invariant_check, e, e') h
          | inr (c, e') ↦
              let r = execute_cmd setup answer action_check f none c s' in
              let ran = execute_cmd-OnlyRuns action_check f none c s' (inr refl) h in
              elim (Bool-cases r.0) [
                | inl ok ↦ rw (invariant_check, e, e', ok) ran
                | inr bad ↦ rw (invariant_check, e, e', bad, never) ran
              ]
        ]
      ]

  check_round-OnlyRuns :
      (repcnt : ℕ) (f : F) (s' : Command F C I)
      → setup.repair_on_unban ≡ false
      → OnlyRuns f s s'
      → OnlyRuns f s (state_of (check_round setup answer repcnt action_unban f s'))
  unfolding check_round state_of same tag_discrete
  check_round-OnlyRuns repcnt f s' never h = elim (Bool-cases (ltb 0 repcnt && setup.has_check)) [
    | inl e ↦
        rw (check_round, e)
          (invariant_check-OnlyRuns f _ _ s'
            (ap (λ b. not (same action_unban action_unban && not b)) never) h)
    | inr e ↦ rw (check_round, e) h
  ]

  process_round-OnlyRuns :
      (next : Command F C I → Exit (Command F C I) Bool) (repcnt : ℕ) (i : I) (c : Check)
      (s' : Command F C I)
      → ((s' : Command F C I)
          → OnlyRuns (setup.family_of i) s s'
          → OnlyRuns (setup.family_of i) s (state_of (next s')))
      → OnlyRuns (setup.family_of i) s s'
      → OnlyRuns
          (setup.family_of i)
          s
          (state_of (process_round setup answer next repcnt action_unban i c s'))
  unfolding process_round state_of
  process_round-OnlyRuns next repcnt i not_repaired s' keeps h = h
  process_round-OnlyRuns next repcnt i broken s' keeps h = h
  process_round-OnlyRuns next repcnt i sane s' keeps h =
      let f = setup.family_of i in
      elim (Option-cases (setup.replace_tag action_unban f)) [
        | inl e ↦ rw (process_round, e) h
        | inr (c, e) ↦
            let r = execute_cmd setup answer action_unban f (some i) c s' in
            let ran = execute_cmd-OnlyRuns action_unban f (some i) c s' (inl refl) h in
            elim (Bool-cases (r.0 || ltb 1 (repcnt + 1))) [
              | inl last ↦ rw (process_round, e, last) ran
              | inr more ↦ rw (process_round, e, more) (keeps r.1 ran)
            ]
      ]

  process_loop-OnlyRuns :
      (out : Exit (Command F C I) Bool) (i : I)
      → setup.repair_on_unban ≡ false
      → OnlyRuns (setup.family_of i) s (state_of out)
      → (fuel repcnt : ℕ) (s' : Command F C I) → OnlyRuns (setup.family_of i) s s'
      → OnlyRuns
          (setup.family_of i)
          s
          (state_of (process_loop setup answer out fuel repcnt action_unban i s'))
  unfolding process_loop
  process_loop-OnlyRuns out i never o zero repcnt s' h = o
  process_loop-OnlyRuns out i never o (suc fuel) repcnt s' h =
      and_then-Kept (OnlyRuns (setup.family_of i) s) _ _
        (check_round-OnlyRuns repcnt (setup.family_of i) s' never h)
        (λ c s'' h'.
          process_round-OnlyRuns _ repcnt i c s''
            (process_loop-OnlyRuns out i never o fuel (repcnt + 1)) h')

  -- Where unbans are not repaired, an unban changes no flag, no epoch and no remembered command,
  -- whatever the commands answer and whether it returns or raises: all that it adds are runs of the
  -- command of the unban and of the check, for the family of the ticket.
  pub unban_command-OnlyRuns :
      (i : I)
      → setup.repair_on_unban ≡ false
      → OnlyRuns (setup.family_of i) s (state_of (unban_command setup answer i s))
  unfolding unban_command process_cmd state_of
  unban_command-OnlyRuns i never =
      let f = setup.family_of i in
      elim (Bool-cases (flags_of f s).has_items) [
        | inr e ↦ rw (unban_command, e) (OnlyRuns-same f s)
        | inl e ↦
            rw (unban_command, e)
              (and_then-Kept (OnlyRuns f s) _ _
                (process_loop-OnlyRuns (returns false s) i never (OnlyRuns-same f s) 10 0 s
                  (OnlyRuns-same f s))
                (λ ok s' h.
                  elim ok
                    as (λ (b : Bool).
                      OnlyRuns f s (state_of (if b then returns true s' else runtime_error s'))) [
                        | true ↦ h
                        | false ↦ h
                      ]))
      ]
