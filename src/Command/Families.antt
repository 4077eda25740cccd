-- ===== src/Command/Families.antt =====
-- The families of an action that `stop` and `flush` of fail2ban/server/action.py leave started and
-- with items.
use fail2ban.Common.{
  ◌≡◌, refl, sym, ap, ◌∙◌, ◌≢◌, Bool, true, false, Option, none, some, List, [], ◌∷◌, map, keep,
  All, Bool-cases, List-cases, inl, inr, ite,
}
use fail2ban.Common.Dict.{Key, Dict, lookup, lookup-insert_self, lookup-insert_ne}
use fail2ban.Command.{
  tag_key, action_stop, Flags, Run, Setup, Command, state_of, is_set, no_flags, flags_of, set_flags,
  families_with, execute_operation,
}
use fail2ban.Command.Calls.{after_stop, stop_command}
use fail2ban.Command.Kept.{Ran, execute_operation-Kept, after_stop-Kept}

abbrev pub get_flags : Option Flags → Flags
get_flags none = no_flags
get_flags (some v) = v

module _ {F : Type 0} ⦃family_key : Key F⦄ where
  -- What holds of all families with `p` holds of each of them.
  All-families :
      (p : Flags → Bool) (Q : F → Type 0) (d : Dict F Flags) (g : F)
      → p no_flags ≡ false
      → All Q (map (λ e. e.0) (keep (λ e. p e.1) d))
      → p (get_flags (lookup g d)) ≡ true
      → Q g
  All-families p Q [] g n h t = absurd (cc)
  All-families p Q (e ∷ d) g n h t = elim (Bool-cases (p e.1)) [
    | inl chosen ↦
        let h' : All Q (e.0 ∷ map (λ e. e.0) (keep (λ e. p e.1) d)) = rw chosen at h in
        elim (family_key.same g e.0)
            as (λ o. p (get_flags (ite o (some e.1) (lookup g d))) ≡ true → Q g) [
              | yes here ↦ λ _. rw here h'.0
              | no other ↦ λ t'. All-families p Q d g n h'.1 t'
            ]
          t
    | inr left ↦
        let h' : All Q (map (λ e. e.0) (keep (λ e. p e.1) d)) = rw left at h in
        elim (family_key.same g e.0)
            as (λ o. p (get_flags (ite o (some e.1) (lookup g d))) ≡ true → Q g) [
              | yes here ↦ λ t'. absurd (cc)
              | no other ↦ λ t'. All-families p Q d g n h' t'
            ]
          t
  ]

module _ {F C I : Type 0} ⦃family_key : Key F⦄ where
  pub flags_of-get : (g : F) (s : Command F C I) → flags_of g s ≡ get_flags (lookup g s.flags)
  unfolding flags_of
  flags_of-get g s =
      elim (lookup g s.flags)
        as (λ o. (elim o as (λ _. Flags) [ none ↦ no_flags | some v ↦ v ]) ≡ get_flags o) [
          | none ↦ refl
          | some v ↦ refl
        ]

  pub flags_of-set_self : (f : F) (v : Flags) (s : Command F C I) → flags_of f (set_flags f v s) ≡ v
  unfolding set_flags
  flags_of-set_self f v s =
      flags_of-get f (set_flags f v s) ∙ ap get_flags (lookup-insert_self f v s.flags)

  pub flags_of-set_ne :
      (g f : F) (v : Flags) (s : Command F C I)
      → g ≢ f
      → flags_of g (set_flags f v s) ≡ flags_of g s
  unfolding set_flags
  flags_of-set_ne g f v s other =
      flags_of-get g (set_flags f v s)
      ∙ ap get_flags (lookup-insert_ne g f v s.flags other)
      ∙ sym (flags_of-get g s)

  -- A fact about the flags of a family, and about no flags, holds of it if it holds of those listed.
  pub families_with-flags :
      (p : Flags → Bool) (Q : F → Type 0) (g : F) (s : Command F C I)
      → p no_flags ≡ false
      → All Q (families_with p s)
      → p (flags_of g s) ≡ true
      → Q g
  unfolding families_with
  families_with-flags p Q g s n h t = All-families p Q s.flags g n h (rw (flags_of-get g s) at t)

  FlagsAre : Dict F Flags → Command F C I → Type 0
  FlagsAre d s = s.flags ≡ d

  FlagsAre-Ran : (d : Dict F Flags) → Ran (λ t. Unit {0}) (FlagsAre d)
  unfolding FlagsAre
  FlagsAre-Ran d = record { runs = λ r s a h. h; memory = λ m s h. h }

module _ {F C I : Type 0} ⦃family_key : Key F⦄ ⦃command_key : Key C⦄ (setup : Setup F C I)
    (answer : List (Run F C I) → Run F C I → Bool) where
  -- After `stop` no family is started, whatever the commands answer, and also where it raises an
  -- exception.
  pub stop_command_clears :
      (g : F) (s : Command F C I)
      → is_set (flags_of g (state_of (stop_command setup answer s))) ≡ false
  unfolding stop_command state_of FlagsAre is_set
  stop_command_clears g s = elim (List-cases (families_with is_set s)) [
    | inl e ↦ elim (Bool-cases (is_set (flags_of g s))) [
      | inl on ↦ absurd (families_with-flags is_set (λ _. ⊥) g s refl (rw e tt) on)
      | inr off ↦ rw (stop_command, e) off
    ]
    | inr (f, fs, e) ↦
        rw (stop_command, e)
          (let start = record s { flags = [] } in
            let x = execute_operation setup answer action_stop (f ∷ fs) after_stop start in
            let cleared : (state_of x).flags ≡ [] =
              execute_operation-Kept (FlagsAre-Ran []) setup answer action_stop after_stop
                (after_stop-Kept (FlagsAre-Ran [])) tt (f ∷ fs) start refl in
            ap is_set (flags_of-get g (state_of x) ∙ ap (λ d. get_flags (lookup g d)) cleared))
  ]
