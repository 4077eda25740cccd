-- ===== src/Command/Flush.antt =====
-- What `flush` of fail2ban/server/action.py does to the families of an action.
use fail2ban.Common.{
  ◌≡◌, refl, sym, ap, ◌∙◌, Bool, true, false, ◌&&◌, List, [], ◌∷◌, All, Bool-cases, Option-cases,
  List-cases, inl, inr, arith,
}
use mathlib.Core.Path.{subst}
use fail2ban.Common.Dict.{Key, lookup}
use fail2ban.Command.{
  Tag, tag_key, action_flush, Flags, Run, Setup, Command, returns, is_set, flags_of, set_flags,
  families_with, get_operation, execute_once, note_executed, execute_each, execute_operation,
}
use fail2ban.Command.Calls.{after_flush, flush_command}
use fail2ban.Command.Kept.{Ran, execute_each-Kept, note_executed-Kept, IsFlags}
use fail2ban.Server.Adding.{clash}
use fail2ban.Command.Invariant.{IsValid}
use fail2ban.Command.Success.{OnReturn}
use fail2ban.Command.Families.{
  families_with-flags, flags_of-get, flags_of-set_self, flags_of-set_ne,
}
use fail2ban.Common.Dict.Entries.{lookup-Entries}

module _ {F C I : Type 0} ⦃family_key : Key F⦄ ⦃command_key : Key C⦄ (setup : Setup F C I)
    (answer : List (Run F C I) → Run F C I → Bool) where
  execute_each-false :
      (tag : Tag) (after : F → Bool → Command F C I → Command F C I) (fs : List F)
      (s : Command F C I)
      → (execute_each setup answer tag after fs false s).0 ≡ false
  unfolding execute_each
  execute_each-false tag after [] s = refl
  execute_each-false tag after (f ∷ fs) s = elim (Option-cases (get_operation setup tag f)) [
    | inl e ↦ rw (execute_each, e) (execute_each-false tag after fs s)
    | inr (c, e) ↦ rw (execute_each, e) (execute_each-false tag after fs _)
  ]

module _ {F C I : Type 0} ⦃family_key : Key F⦄ where
  -- A family's flags through a flush: whether it is started stays, and items only go.
  record Flushed (g : F) (v : Flags) (s : Command F C I) : Type 0 where
    pub same_start : (flags_of g s).is_started ≡ v.is_started
    pub less_items : v.has_items ≡ false → (flags_of g s).has_items ≡ false

  Flushed-Ran : (g : F) (v : Flags) → Ran (λ t. Unit {0}) (Flushed g v)
  unfolding flags_of
  Flushed-Ran g v = record {
    runs = λ r s a h. record { same_start = h.same_start; less_items = h.less_items };
    memory = λ m s h. record { same_start = h.same_start; less_items = h.less_items };
  }

unset_items : (v : Flags) → is_set v ≡ false → v.has_items ≡ false
unfolding is_set
unset_items v h = ground arith

not_both : (v : Flags) → IsFlags v → v.is_started && v.has_items ≡ false → v.has_items ≡ false
not_both v ok h = elim (Bool-cases v.has_items) [
  | inr e ↦ e
  | inl e ↦ absurd (clash (ap (λ b. b && v.has_items) (ok e) ∙ e) h)
]

module _ {F C I : Type 0} ⦃family_key : Key F⦄ where
  flags_of-IsFlags : (g : F) (s : Command F C I) → IsValid s → IsFlags (flags_of g s)
  flags_of-IsFlags g s h = elim (Option-cases (lookup g s.flags)) [
    | inl e ↦ rw (flags_of-get g s, e) (λ x. x)
    | inr (v, e) ↦
        rw (flags_of-get g s, e) (lookup-Entries (λ f w. IsFlags w) g v s.flags h.items e)
  ]

module _ {F C I : Type 0} ⦃family_key : Key F⦄ ⦃command_key : Key C⦄ where
  after_flush-Flushed :
      (g : F) (v : Flags) (f : F) (ret : Bool) (s : Command F C I)
      → Flushed g v s
      → Flushed g v (after_flush f ret s)
  unfolding after_flush
  after_flush-Flushed g v f ret s h = elim (Bool-cases (ret && is_set (flags_of f s))) [
    | inr e ↦ rw (after_flush, e) h
    | inl e ↦
        let new : Flags = record (flags_of f s) { has_items = false } in
        rw (after_flush, e)
          (elim (family_key.same g f) [
            | yes same ↦
                let now : flags_of g (set_flags f new s) ≡ new =
                  rw same (flags_of-set_self f new s) in
                record {
                  same_start =
                      ap (λ w. w.is_started) now
                      ∙ ap (λ f. (flags_of f s).is_started) (sym same)
                      ∙ h.same_start;
                  less_items = λ _. ap (λ w. w.has_items) now;
                }
            | no other ↦
                let now = flags_of-set_ne g f new s other in
                record {
                  same_start = ap (λ w. w.is_started) now ∙ h.same_start;
                  less_items = λ x. ap (λ w. w.has_items) now ∙ h.less_items x;
                }
          ])
  ]

  after_flush_clears :
      (f : F) (s : Command F C I) → (flags_of f (after_flush f true s)).has_items ≡ false
  unfolding after_flush
  after_flush_clears f s = elim (Bool-cases (is_set (flags_of f s))) [
    | inl e ↦ rw (after_flush, e) (ap (λ w. w.has_items) (flags_of-set_self f _ s))
    | inr e ↦ rw (after_flush, e) (unset_items (flags_of f s) e)
  ]

  module _ (setup : Setup F C I) (answer : List (Run F C I) → Run F C I → Bool) where
    flush_each : List F → Command F C I → Bool × Command F C I
    flush_each fs s = execute_each setup answer action_flush after_flush fs true s

    flush_each-Flushed :
        (g : F) (v : Flags) (fs : List F) (s : Command F C I)
        → Flushed g v s
        → Flushed g v (flush_each fs s).1
    unfolding flush_each
    flush_each-Flushed g v fs s h =
        execute_each-Kept (Flushed-Ran g v) setup answer action_flush after_flush
          (after_flush-Flushed g v) tt fs true s h

    flush_each_clears :
        (fs : List F) (s : Command F C I)
        → (flush_each fs s).0 ≡ true
        → All (λ g. (flags_of g (flush_each fs s).1).has_items ≡ false) fs
    unfolding flush_each execute_each
    flush_each_clears [] s ok = tt
    flush_each_clears (f ∷ fs) s ok = elim (Option-cases (get_operation setup action_flush f)) [
      | inl e ↦ absurd (
          clash ok
            (rw (execute_each, e) (execute_each-false setup answer action_flush after_flush fs s)))
      | inr (c, e) ↦
          let r = execute_once setup answer action_flush f c s in
          elim (Bool-cases r.0) [
            | inr bad ↦ absurd (
                clash ok (
                  rw (execute_each, e, bad)
                    (execute_each-false setup answer action_flush after_flush fs _)))
            | inl good ↦
                let s' = note_executed setup action_flush f c true (after_flush f true r.1) in
                let gone : (flags_of f s').has_items ≡ false =
                  (note_executed-Kept (Flushed-Ran f (flags_of f (after_flush f true r.1))) setup
                      action_flush f c true _
                      (record { same_start = refl; less_items = λ x. x })).less_items
                    (after_flush_clears f r.1) in
                let step : flush_each (f ∷ fs) s ≡ flush_each fs s' =
                  rw (execute_each, e, good) refl in
                let kept =
                  flush_each-Flushed f (flags_of f s') fs s'
                    (record { same_start = refl; less_items = λ x. x }) in
                subst
                  (λ (x : Bool × Command F C I).
                    All (λ g. (flags_of g x.1).has_items ≡ false) (f ∷ fs))
                  (sym step)
                  (kept.less_items gone, flush_each_clears fs s' (ap (λ x. x.0) (sym step) ∙ ok))
          ]
    ]

    flush_command-OnReturn :
        (s : Command F C I)
        → IsValid s
        → OnReturn
            (λ ok s'.
              (g : F)
              → ((flags_of g s').is_started ≡ (flags_of g s).is_started)
                × ((flags_of g s').has_items ≡ false))
            (flush_command setup answer s)
    unfolding flush_command execute_operation flush_each
    flush_command-OnReturn s h =
        let both : Flags → Bool = λ v. v.is_started && v.has_items in
        elim (List-cases (families_with both s)) [
          | inl e ↦
              rw (flush_command, e)
                (λ g. (
                  refl,
                  elim (Bool-cases (both (flags_of g s))) [
                    | inl on ↦ absurd (families_with-flags both (λ _. ⊥) g s refl (rw e tt) on)
                    | inr off ↦ not_both (flags_of g s) (flags_of-IsFlags g s h) off
                  ],
                ))
          | inr (f, fs, e) ↦ elim (Bool-cases (flush_each (f ∷ fs) s).0) [
            | inr bad ↦ rw (flush_command, e, bad) tt
            | inl ok ↦
                rw (flush_command, e, ok)
                  (λ g.
                    let after =
                      flush_each-Flushed g (flags_of g s) (f ∷ fs) s
                        (record { same_start = refl; less_items = λ x. x }) in
                    (
                      after.same_start,
                      elim (Bool-cases (both (flags_of g s))) [
                        | inl on ↦
                            families_with-flags both
                              (λ g. (flags_of g (flush_each (f ∷ fs) s).1).has_items ≡ false) g s
                              refl (rw e (flush_each_clears (f ∷ fs) s ok)) on
                        | inr off ↦
                            after.less_items (not_both (flags_of g s) (flags_of-IsFlags g s h) off)
                      ],
                    ))
          ]
        ]

    -- A flush that raises no exception leaves no family with items, and starts or stops none.
    pub flush_command_clears :
        (ok : Bool) (s s' : Command F C I) (g : F)
        → IsValid s
        → flush_command setup answer s ≡ returns ok s'
        → ((flags_of g s').is_started ≡ (flags_of g s).is_started)
          × ((flags_of g s').has_items ≡ false)
    flush_command_clears ok s s' g h e = (rw e at (flush_command-OnReturn s h)) g
