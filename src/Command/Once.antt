-- ===== src/Command/Once.antt =====
-- Which commands `_executeOperation` of fail2ban/server/action.py runs: none a second time for another
-- family.
use fail2ban.Common.{
  ◌≡◌, refl, sym, ap, ◌∙◌, Bool, true, false, ◌&&◌, none, some, List, [], ◌∷◌, ◌++◌, any,
  if◌then◌else◌, Bool-cases, inl, inr,
}
use fail2ban.Common.Dict.{Key, lookup, insert, values}
use fail2ban.Command.{
  Tag, tag_key, Run, Setup, Command, same, executed, remember, forget, executed_for_other,
  execute_cmd, get_operation, execute_once, note_executed, execute_each,
}
use fail2ban.Command.Memory.{
  Fresh, Fresh-insert, values-insert, any-values, executed-remember, executed-forget_new,
}

module _ {F C I : Type 0} ⦃command_key : Key C⦄ (setup : Setup F C I)
    (answer : List (Run F C I) → Run F C I → Bool) (tag : Tag) (text : F → C) where
  abbrev operation_run : F → Run F C I
  operation_run f = record { tag = tag; family = f; info = none; command = text f }

  -- The commands of families in order after the commands `rs` were run: a text that is empty, or one
  -- of `seen`, is not run. A text that was run with success is seen.
  abbrev pub once_each : List (Run F C I) → List C → List F → List (Run F C I)
  once_each rs seen [] = rs
  once_each rs seen (f ∷ fs) =
      if setup.is_empty (text f)
      then once_each rs seen fs
      else if any (λ x. same x (text f)) seen
      then once_each rs (seen ++ (text f ∷ [])) fs
      else once_each (rs ++ (operation_run f ∷ []))
          (if answer rs (operation_run f) then seen ++ (text f ∷ []) else seen) fs

module _ {F C I : Type 0} ⦃family_key : Key F⦄ ⦃command_key : Key C⦄ (setup : Setup F C I)
    (answer : List (Run F C I) → Run F C I → Bool) (tag : Tag)
    (after : F → Bool → Command F C I → Command F C I)
    (same_memory : (f : F) (ret : Bool) (s : Command F C I)
      → executed tag (after f ret s) ≡ executed tag s)
    (same_runs : (f : F) (ret : Bool) (s : Command F C I) → (after f ret s).runs ≡ s.runs)
    (text : F → C) (texts : (f : F) → get_operation setup tag f ≡ some (text f)) where
  -- The state after the command of one family
  after_one : F → Command F C I → Command F C I
  after_one f s =
      let r = execute_once setup answer tag f (text f) s in
      note_executed setup tag f (text f) r.0 (after f r.0 r.1)

  execute_each_cons :
      (f : F) (fs : List F) (res : Bool) (s : Command F C I)
      → (execute_each setup answer tag after (f ∷ fs) res s).1
        ≡ (execute_each setup answer tag after fs
            (res && (execute_once setup answer tag f (text f) s).0)
            (after_one f s)).1
  unfolding execute_each after_one
  execute_each_cons f fs res s = rw (execute_each, texts f) refl

  forgets :
      (f : F) (ret : Bool) (s : Command F C I)
      → lookup f (executed tag s) ≡ none
      → forget tag f (after f ret s) ≡ after f ret s
  forgets f ret s new =
      executed-forget_new tag f (after f ret s) (ap (lookup f) (same_memory f ret s) ∙ new)

  remembers :
      (f : F) (ret : Bool) (s : Command F C I)
      → executed tag (remember tag f (text f) (after f ret s)) ≡ insert f (text f) (executed tag s)
  remembers f ret s =
      executed-remember tag f (text f) (after f ret s)
      ∙ ap (insert f (text f)) (same_memory f ret s)

  -- What one family adds to the commands run and to the memory
  data Added (f : F) (s s' : Command F C I) : Type 0 where
    empty :
        setup.is_empty (text f) ≡ true
        → s'.runs ≡ s.runs
        → executed tag s' ≡ executed tag s
        → Added f s s'
    again :
        setup.is_empty (text f) ≡ false
        → any (λ x. same x (text f)) (values (executed tag s)) ≡ true
        → s'.runs ≡ s.runs
        → executed tag s' ≡ insert f (text f) (executed tag s)
        → Added f s s'
    ran_well :
        setup.is_empty (text f) ≡ false
        → any (λ x. same x (text f)) (values (executed tag s)) ≡ false
        → answer s.runs (operation_run setup answer tag text f) ≡ true
        → s'.runs ≡ s.runs ++ (operation_run setup answer tag text f ∷ [])
        → executed tag s' ≡ insert f (text f) (executed tag s)
        → Added f s s'
    ran_badly :
        setup.is_empty (text f) ≡ false
        → any (λ x. same x (text f)) (values (executed tag s)) ≡ false
        → answer s.runs (operation_run setup answer tag text f) ≡ false
        → s'.runs ≡ s.runs ++ (operation_run setup answer tag text f ∷ [])
        → executed tag s' ≡ executed tag s
        → Added f s s'

  other_any :
      (f : F) (s : Command F C I)
      → lookup f (executed tag s) ≡ none
      → executed_for_other tag f (text f) s ≡ any (λ x. same x (text f)) (values (executed tag s))
  unfolding executed_for_other
  other_any f s new = any-values f (text f) (executed tag s) new

  after_one-Added :
      (f : F) (s : Command F C I) → lookup f (executed tag s) ≡ none → Added f s (after_one f s)
  unfolding after_one execute_once note_executed execute_cmd executed remember
  after_one-Added f s new =
      let c = text f in
      let r = operation_run setup answer tag text f in
      let s' = record s { runs = s.runs ++ (r ∷ []) } in
      elim (Bool-cases (setup.is_empty c)) [
        | inl e ↦
            empty e (rw (after_one, e, forgets f true s new) (same_runs f true s))
              (rw (after_one, e, forgets f true s new) (same_memory f true s))
        | inr e ↦ elim (Bool-cases (executed_for_other tag f c s)) [
          | inl seen ↦
              again e (sym (other_any f s new) ∙ seen)
                (rw (after_one, e, seen) (same_runs f true s))
                (rw (after_one, e, seen) (remembers f true s))
          | inr first ↦ elim (Bool-cases (answer s.runs r)) [
            | inl good ↦
                ran_well e (sym (other_any f s new) ∙ first) good
                  (rw (after_one, e, first, good) (same_runs f true s'))
                  (rw (after_one, e, first, good) (remembers f true s'))
            | inr bad ↦
                ran_badly e (sym (other_any f s new) ∙ first) bad
                  (rw (after_one, e, first, bad, forgets f false s' new) (same_runs f false s'))
                  (rw (after_one, e, first, bad, forgets f false s' new) (same_memory f false s'))
          ]
        ]
      ]

  Added-Fresh :
      (f : F) (fs : List F) (s s' : Command F C I)
      → Added f s s'
      → Fresh (f ∷ fs) (executed tag s)
      → Fresh fs (executed tag s')
  Added-Fresh f fs s s' (empty e rs d) h = rw d h.2
  Added-Fresh f fs s s' (again e a rs d) h = rw d (Fresh-insert f (text f) fs _ h.1 h.2)
  Added-Fresh f fs s s' (ran_well e a g rs d) h = rw d (Fresh-insert f (text f) fs _ h.1 h.2)
  Added-Fresh f fs s s' (ran_badly e a g rs d) h = rw d h.2

  once : List (Run F C I) → List C → List F → List (Run F C I)
  once = once_each setup answer tag text

  Added-once :
      (f : F) (fs : List F) (s s' : Command F C I)
      → Added f s s'
      → lookup f (executed tag s) ≡ none
      → once s'.runs (values (executed tag s')) fs ≡ once s.runs (values (executed tag s)) (f ∷ fs)
  unfolding once executed
  Added-once f fs s s' (empty e rs d) new = rw (rs, d, e) refl
  Added-once f fs s s' (again e a rs d) new =
      rw (rs, d, e, a, values-insert f (text f) (executed tag s) new) refl
  Added-once f fs s s' (ran_well e a g rs d) new =
      rw (rs, d, e, a, g, values-insert f (text f) (executed tag s) new) refl
  Added-once f fs s s' (ran_badly e a g rs d) new = rw (rs, d, e, a, g) refl

  pub execute_each-once :
      (fs : List F) (res : Bool) (s : Command F C I)
      → Fresh fs (executed tag s)
      → (execute_each setup answer tag after fs res s).1.runs
        ≡ once_each setup answer tag text s.runs (values (executed tag s)) fs
  unfolding once execute_each
  execute_each-once [] res s h = refl
  execute_each-once (f ∷ fs) res s h =
      let added = after_one-Added f s h.0 in
      ap (λ s. s.runs) (execute_each_cons f fs res s)
      ∙ execute_each-once fs _ (after_one f s) (Added-Fresh f fs s (after_one f s) added h)
      ∙ Added-once f fs s (after_one f s) added h.0
