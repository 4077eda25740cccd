-- ===== src/Command/Rounds.antt =====
-- `_processCmd` of fail2ban/server/action.py, and the methods that call it, keep what their steps keep.
use fail2ban.Common.{
  refl, ℕ, zero, suc, ◌+◌, Bool, true, false, not, ◌&&◌, ◌||◌, some, List, [], ◌∷◌, if◌then◌else◌,
  Bool-cases, Option-cases, inl, inr, ltb,
}
use fail2ban.Common.Dict.{Key, Dict}
use fail2ban.Command.{
  Tag, tag_key, action_start, action_unban, action_prolong, Flags, Run, Setup, Command, Exit,
  returns, runtime_error, state_of, and_then, is_set, with_items, no_flags, flags_of, set_flags,
  execute_cmd,
}
use fail2ban.Command.Calls.{
  Check, sane, not_repaired, broken, process_round, process_loop, process_cmd, ban_by,
  prolong_command, unban_command, note_check, check_each, consistency_check,
}
use fail2ban.Command.Kept.{Kept, forget-Kept, execute_cmd-Kept}
use fail2ban.Command.Methods.{
  and_then-Kept, Repairs, start_families-Kept, invariant_check-Kept, check_round-Kept,
}

module _ {F C I : Type 0} ⦃family_key : Key F⦄ ⦃command_key : Key C⦄ {Allowed : Tag → Type 0}
    {P : Command F C I → Type 0} (kept : Kept Allowed P) (setup : Setup F C I)
    (answer : List (Run F C I) → Run F C I → Bool) (repairs : Repairs Allowed) where
  process_round-Kept :
      (next : Command F C I → Exit (Command F C I) Bool)
      → ((s : Command F C I) → P s → P (state_of (next s)))
      → (repcnt : ℕ) (tag : Tag) (i : I) (c : Check) (s : Command F C I) → Allowed tag
      → P s
      → P (state_of (process_round setup answer next repcnt tag i c s))
  unfolding process_round state_of
  process_round-Kept next keeps repcnt tag i not_repaired s a h = h
  process_round-Kept next keeps repcnt tag i broken s a h = h
  process_round-Kept next keeps repcnt tag i sane s a h =
      elim (Option-cases (setup.replace_tag tag (setup.family_of i))) [
        | inl e ↦ rw (process_round, e) h
        | inr (c, e) ↦
            let f = setup.family_of i in
            let r = execute_cmd setup answer tag f (some i) c s in
            let ran = execute_cmd-Kept kept.ran setup answer tag f (some i) c s a h in
            elim (Bool-cases (r.0 || ltb 1 (repcnt + 1))) [
              | inl last ↦ rw (process_round, e, last) ran
              | inr more ↦ rw (process_round, e, more) (keeps r.1 ran)
            ]
      ]

  process_loop-Kept :
      (out : Exit (Command F C I) Bool) (tag : Tag) (i : I)
      → Allowed tag
      → P (state_of out)
      → (fuel repcnt : ℕ) (s : Command F C I) → P s
      → P (state_of (process_loop setup answer out fuel repcnt tag i s))
  unfolding process_loop
  process_loop-Kept out tag i a o zero repcnt s h = o
  process_loop-Kept out tag i a o (suc fuel) repcnt s h =
      and_then-Kept P _ _ (check_round-Kept kept setup answer repairs repcnt tag _ s h) (λ c s' h'.
        process_round-Kept _ (process_loop-Kept out tag i a o fuel (repcnt + 1)) repcnt tag i c s' a
          h')

  pub process_cmd-Kept :
      (tag : Tag) (i : I) (s : Command F C I)
      → Allowed tag
      → P s
      → P (state_of (process_cmd setup answer tag i s))
  unfolding process_cmd state_of
  process_cmd-Kept tag i s a h = process_loop-Kept (returns false s) tag i a h 10 0 s h

  pub ban_by-Kept :
      (tag : Tag) (i : I) (s : Command F C I)
      → Allowed tag
      → P s
      → P (state_of (ban_by setup answer tag i s))
  unfolding ban_by state_of
  ban_by-Kept tag i s a h =
      and_then-Kept P _ _
        (elim (Bool-cases
          (setup.start_on_demand && not (is_set (flags_of (setup.family_of i) s)))) [
            | inl e ↦ rw e (start_families-Kept kept setup answer repairs.start _ true s h)
            | inr e ↦ rw e h
          ])
        (λ _ s' h'. and_then-Kept P _ _ (process_cmd-Kept tag i s' a h') (λ ok s'' h''.
          elim ok
            as (λ b. P (
              state_of (
                if b
                then returns true (set_flags (setup.family_of i) with_items s'')
                else runtime_error s''))) [
                  | true ↦ kept.flags _ with_items s'' (λ x. refl) h''
                  | false ↦ h''
                ]))

  then_error-Kept :
      (x : Exit (Command F C I) Bool)
      → P (state_of x)
      → P (state_of (and_then x (λ ok s. if ok then returns true s else runtime_error s)))
  unfolding state_of
  then_error-Kept x h = and_then-Kept P x _ h (λ ok s h'.
      elim ok as (λ (b : Bool). P (state_of (if b then returns true s else runtime_error s))) [
        | true ↦ h'
        | false ↦ h'
      ])

  pub prolong_command-Kept :
      Allowed action_prolong
      → (i : I) (s : Command F C I) → P s
      → P (state_of (prolong_command setup answer i s))
  unfolding prolong_command
  prolong_command-Kept a i s h = then_error-Kept _ (process_cmd-Kept action_prolong i s a h)

  pub unban_command-Kept :
      Allowed action_unban
      → (i : I) (s : Command F C I) → P s
      → P (state_of (unban_command setup answer i s))
  unfolding unban_command state_of
  unban_command-Kept a i s h = elim (Bool-cases (flags_of (setup.family_of i) s).has_items) [
    | inl e ↦ rw (unban_command, e) (then_error-Kept _ (process_cmd-Kept action_unban i s a h))
    | inr e ↦ rw (unban_command, e) h
  ]

  note_check-Kept :
      (f : F) (c : Check) (ret : Bool) (s : Command F C I) → P s → P (note_check f c ret s).1
  unfolding note_check
  note_check-Kept f sane ret s h = h
  note_check-Kept f not_repaired ret s h = h
  note_check-Kept f broken ret s h =
      forget-Kept kept.ran action_start f _ (kept.flags f no_flags s (λ x. x) h)

  check_each-Kept :
      (may_repair : Bool) (es : Dict F Flags) (ret : Bool) (s : Command F C I)
      → P s
      → P (state_of (check_each setup answer may_repair es ret s))
  unfolding check_each state_of
  check_each-Kept may_repair [] ret s h = h
  check_each-Kept may_repair (e ∷ es) ret s h =
      and_then-Kept P _ _
        (elim (Bool-cases (is_set e.1)) [
          | inl on ↦ rw on (invariant_check-Kept kept setup answer repairs e.0 may_repair true s h)
          | inr off ↦ rw off h
        ])
        (λ c s' h'. check_each-Kept may_repair es _ _ (note_check-Kept e.0 c ret s' h'))

  pub consistency_check-Kept :
      (may_repair : Bool) (s : Command F C I)
      → P s
      → P (state_of (consistency_check setup answer may_repair s))
  unfolding consistency_check state_of
  consistency_check-Kept may_repair s h =
      elim setup.has_check
        as (λ (b : Bool). P (
          state_of
            (if b then check_each setup answer may_repair s.flags true s else returns true s))) [
              | true ↦ check_each-Kept may_repair s.flags true s h
              | false ↦ h
            ]
