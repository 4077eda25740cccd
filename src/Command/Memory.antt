-- ===== src/Command/Memory.antt =====
-- The memory of executed commands of `CommandAction` of fail2ban/server/action.py: what
-- `_operationExecuted` returns after it has set or deleted a command.
use fail2ban.Common.{
  ◌≡◌, refl, sym, ap, ◌∙◌, ◌≢◌, not, ◌&&◌, Option, none, some, List, [], ◌∷◌, ◌++◌, any,
  Option-cases, inl, inr, ite,
}
use fail2ban.Common.Dict.{Key, Dict, lookup, insert, values, lookup-insert_self, lookup-insert_ne}
use fail2ban.Common.Dict.Sweep.{IsAbsent}
use fail2ban.Command.{Tag, tag_key, Command, same, executed, remember, forget}
use fail2ban.Command.Tries.{same_ne}

module _ {F C : Type 0} ⦃family_key : Key F⦄ where
  -- The families are distinct, and none of them is a key.
  abbrev pub Fresh : List F → Dict F C → Type 0
  Fresh [] d = Unit {0}
  Fresh (f ∷ fs) d = (lookup f d ≡ none) × IsAbsent f fs × Fresh fs d

  pub Fresh-insert :
      (f : F) (c : C) (fs : List F) (d : Dict F C)
      → IsAbsent f fs
      → Fresh fs d
      → Fresh fs (insert f c d)
  Fresh-insert f c [] d out h = tt
  Fresh-insert f c (g ∷ fs) d out h =
      (lookup-insert_ne g f c d out.0 ∙ h.0, h.1, Fresh-insert f c fs d out.1 h.2)

  pub values-insert :
      (f : F) (c : C) (d : Dict F C)
      → lookup f d ≡ none
      → values (insert f c d) ≡ values d ++ (c ∷ [])
  values-insert f c [] h = refl
  values-insert f c (e ∷ d) h =
      elim (family_key.same f e.0)
          as (λ o.
            ite o (some e.1) (lookup f d) ≡ none
            → values (ite o ((f, c) ∷ d) (e ∷ insert f c d)) ≡ e.1 ∷ (values d ++ (c ∷ []))) [
              | yes here ↦ λ h'. absurd (cc)
              | no other ↦ λ h'. ap (◌∷◌ e.1) (values-insert f c d h')
            ]
        h

module _ {F C : Type 0} where
  abbrev get_dict : Option (Dict F C) → Dict F C
  get_dict none = []
  get_dict (some d) = d

module _ {F C : Type 0} ⦃family_key : Key F⦄ ⦃command_key : Key C⦄ where
  rest_none :
      (f : F) (e : F × C) (d : Dict F C) → lookup f (e ∷ d) ≡ none → (f ≢ e.0) × (lookup f d ≡ none)
  rest_none f e d h =
      elim (family_key.same f e.0)
          as (λ o. ite o (some e.1) (lookup f d) ≡ none → (f ≢ e.0) × (lookup f d ≡ none)) [
            | yes here ↦ λ h'. absurd (cc)
            | no other ↦ λ h'. (other, h')
          ]
        h

  pub any-values :
      (f : F) (c : C) (d : Dict F C)
      → lookup f d ≡ none
      → any (λ e. not (same e.0 f) && same e.1 c) d ≡ any (λ x. same x c) (values d)
  any-values f c [] h = refl
  any-values f c (e ∷ d) h =
      let out = rest_none f e d h in rw (same_ne e.0 f out.0, any-values f c d out.1) refl

module _ {F C I : Type 0} ⦃family_key : Key F⦄ ⦃command_key : Key C⦄ where
  executed-get : (tag : Tag) (s : Command F C I) → executed tag s ≡ get_dict (lookup tag s.memory)
  unfolding executed
  executed-get tag s =
      elim (lookup tag s.memory)
        as (λ o. (elim o as (λ _. Dict F C) [ none ↦ [] | some d ↦ d ]) ≡ get_dict o) [
          | none ↦ refl
          | some d ↦ refl
        ]

  pub executed-remember :
      (tag : Tag) (f : F) (c : C) (s : Command F C I)
      → executed tag (remember tag f c s) ≡ insert f c (executed tag s)
  unfolding remember
  executed-remember tag f c s =
      executed-get tag (remember tag f c s)
      ∙ ap get_dict (lookup-insert_self tag (insert f c (executed tag s)) s.memory)

  pub executed-forget_new :
      (tag : Tag) (f : F) (s : Command F C I)
      → lookup f (executed tag s) ≡ none
      → forget tag f s ≡ s
  unfolding executed forget
  executed-forget_new tag f s h = elim (Option-cases (lookup tag s.memory)) [
    | inl e ↦ rw (forget, e) refl
    | inr (d, e) ↦ rw (forget, e, rw (executed, e) at h) refl
  ]

  pub executed-forget_ne :
      (tag tag' : Tag) (f : F) (s : Command F C I)
      → tag ≢ tag'
      → executed tag (forget tag' f s) ≡ executed tag s
  unfolding forget
  executed-forget_ne tag tag' f s other = elim (Option-cases (lookup tag' s.memory)) [
    | inl e ↦ rw (forget, e) refl
    | inr (d, e) ↦ elim (Option-cases (lookup f d)) [
      | inl e' ↦ rw (forget, e, e') refl
      | inr (c, e') ↦
          rw (forget, e, e')
            (executed-get tag _
              ∙ ap get_dict (lookup-insert_ne tag tag' _ s.memory other)
              ∙ sym (executed-get tag s))
    ]
  ]
