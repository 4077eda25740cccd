-- ===== src/Command/Skips.antt =====
-- A flush that runs nothing, `flush` of fail2ban/server/action.py with what `_operationExecuted` keeps.
use fail2ban.Common.{
  ◌≡◌, refl, sym, ap, ◌∙◌, ◌≢◌, Bool, true, false, not, ◌&&◌, some, List, [], ◌∷◌, any, Bool-cases,
  List-cases, inl, inr, arith,
}
use fail2ban.Common.Dict.{Key, Dict, lookup, insert, lookup-insert_self, lookup-insert_ne}
use fail2ban.Command.{
  tag_key, action_flush, Run, Setup, Command, returns, is_set, same, flags_of, set_flags,
  families_with, executed, remember, executed_for_other, get_operation, execute_once, note_executed,
  execute_each, execute_operation,
}
use fail2ban.Command.Calls.{after_flush, flush_command}
use fail2ban.Command.Tries.{same_ne}
use fail2ban.Command.Memory.{executed-remember}

module _ {K : Type 0} ⦃key : Key K⦄ where
  same_self : (a : K) → same a a ≡ true
  unfolding same
  same_self a = elim (key.same a a) as (λ d. (elim d [ yes _ ↦ true | no _ ↦ false ]) ≡ true) [
    | yes _ ↦ refl
    | no other ↦ absurd (other refl)
  ]

module _ {F C : Type 0} ⦃family_key : Key F⦄ ⦃command_key : Key C⦄ where
  any_other :
      (f h : F) (c : C) (d : Dict F C)
      → f ≢ h
      → lookup f d ≡ some c
      → any (λ e. not (same e.0 h) && same e.1 c) d ≡ true
  any_other f h c [] out found = absurd (cc)
  any_other f h c (e ∷ d) out found = elim (family_key.same f e.0) [
    | yes here ↦
        let value : e.1 ≡ c = ground arith in
        rw (← here, value, same_ne f h (λ x. out (sym x)), same_self c) refl
    | no other ↦ elim (Bool-cases (not (same e.0 h) && same e.1 c)) [
      | inl e' ↦ rw e' refl
      | inr e' ↦ rw e' (any_other f h c d out (ground arith))
    ]
  ]

  lookup-insert_kept :
      (f h : F) (c : C) (d : Dict F C) → lookup f d ≡ some c → lookup f (insert h c d) ≡ some c
  lookup-insert_kept f h c d found = elim (family_key.same f h) [
    | yes here ↦ rw here (lookup-insert_self h c d)
    | no other ↦ lookup-insert_ne f h c d other ∙ found
  ]

module _ {F C I : Type 0} ⦃family_key : Key F⦄ ⦃command_key : Key C⦄ (setup : Setup F C I)
    (answer : List (Run F C I) → Run F C I → Bool) (c : C)
    (texts : (f : F) → get_operation setup action_flush f ≡ some c)
    (some_text : setup.is_empty c ≡ false) (f g : F) (two : f ≢ g) where
  -- Both families have executed `c`.
  record Both (s : Command F C I) : Type 0 where
    pub at_f : lookup f (executed action_flush s) ≡ some c
    pub at_g : lookup g (executed action_flush s) ≡ some c

  skipped : (h : F) (s : Command F C I) → Both s → executed_for_other action_flush h c s ≡ true
  unfolding executed_for_other
  skipped h s both = elim (family_key.same f h) [
    | yes here ↦ any_other g h c _ (λ x. two (here ∙ sym x)) both.at_g
    | no other ↦ any_other f h c _ other both.at_f
  ]

  after_flush-same :
      (h : F) (s : Command F C I)
      → (executed action_flush (after_flush h true s) ≡ executed action_flush s)
        × ((after_flush h true s).runs ≡ s.runs)
  unfolding after_flush set_flags executed
  after_flush-same h s = elim (Bool-cases (is_set (flags_of h s))) [
    | inl e ↦ rw (after_flush, e) (refl, refl)
    | inr e ↦ rw (after_flush, e) (refl, refl)
  ]

  one_skipped :
      (h : F) (s : Command F C I)
      → Both s
      → (let s' = note_executed setup action_flush h c true (after_flush h true s) in
          Both s' × (s'.runs ≡ s.runs))
  unfolding note_executed remember
  one_skipped h s both =
      let after = after_flush-same h s in
      let now : executed action_flush (remember action_flush h c (after_flush h true s))
          ≡ insert h c (executed action_flush s) =
        executed-remember action_flush h c (after_flush h true s) ∙ ap (insert h c) after.0 in
      rw some_text (
        record {
          at_f = ap (lookup f) now ∙ lookup-insert_kept f h c (executed action_flush s) both.at_f;
          at_g = ap (lookup g) now ∙ lookup-insert_kept g h c (executed action_flush s) both.at_g;
        },
        after.1,
      )

  once_skipped :
      (h : F) (s : Command F C I)
      → Both s
      → execute_once setup answer action_flush h c s ≡ (true, s)
  unfolding execute_once
  once_skipped h s both = rw (some_text, skipped h s both) refl

  each_skipped :
      (h : F) (fs : List F) (s : Command F C I)
      → Both s
      → execute_each setup answer action_flush after_flush (h ∷ fs) true s
        ≡ execute_each setup answer action_flush after_flush fs true
            (note_executed setup action_flush h c true (after_flush h true s))
  unfolding execute_each
  each_skipped h fs s both =
      rw (execute_each, texts h)
        (ap
          (λ (r : Bool × Command F C I).
            execute_each setup answer action_flush after_flush fs (true && r.0)
              (note_executed setup action_flush h c r.0 (after_flush h r.0 r.1)))
          (once_skipped h s both))

  all_skipped :
      (fs : List F) (s : Command F C I)
      → Both s
      → (let r = execute_each setup answer action_flush after_flush fs true s in
          (r.0 ≡ true) × (r.1.runs ≡ s.runs))
  unfolding execute_each
  all_skipped [] s both = (refl, refl)
  all_skipped (h ∷ fs) s both =
      let step = one_skipped h s both in
      let same' = each_skipped h fs s both in
      let rest =
        all_skipped fs (note_executed setup action_flush h c true (after_flush h true s)) step.0 in
      (ap (λ r. r.0) same' ∙ rest.0, ap (λ r. r.1.runs) same' ∙ rest.1 ∙ step.1)

  -- Where the flush command is the same for all families, and was executed for two of them before,
  -- a flush runs no command, and ends as if it had succeeded.
  pub flush_command_skips :
      (s : Command F C I)
      → lookup f (executed action_flush s) ≡ some c
      → lookup g (executed action_flush s) ≡ some c
      → (s' : Command F C I) × (flush_command setup answer s ≡ returns true s') × (s'.runs ≡ s.runs)
  unfolding flush_command execute_operation
  flush_command_skips s at_f at_g =
      elim (List-cases (families_with (λ v. v.is_started && v.has_items) s)) [
        | inl e ↦ (s, rw (flush_command, e) refl, refl)
        | inr (h, hs, e) ↦
            let r = execute_each setup answer action_flush after_flush (h ∷ hs) true s in
            let skip = all_skipped (h ∷ hs) s (record { at_f = at_f; at_g = at_g }) in
            (r.1, rw (flush_command, e, skip.0) refl, skip.1)
      ]
