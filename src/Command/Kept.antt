-- ===== src/Command/Kept.antt =====
-- Properties of a state of `CommandAction` of fail2ban/server/action.py that its steps keep, through
-- the methods that are made of these steps.
use fail2ban.Common.{
  ◌≡◌, refl, ℕ, Bool, true, false, not, ◌&&◌, ◌||◌, Option, none, List, [], ◌∷◌, ◌++◌, Bool-cases,
  Option-cases, inl, inr,
}
use fail2ban.Common.Dict.{Key, Dict, lookup}
use fail2ban.Command.{
  Tag, tag_key, action_start, action_stop, Flags, Run, Setup, Command, state_of, is_set,
  only_started, flags_of, set_flags, families_with, remember, forget, execute_cmd, get_operation,
  execute_once, executed_for_other, note_executed, execute_each, execute_operation,
}
use fail2ban.Command.Calls.{after_start, after_stop, after_flush}

-- Flags that the methods set
abbrev pub IsFlags : Flags → Type 0
IsFlags v = v.has_items ≡ true → v.is_started ≡ true

-- What running commands keeps: a run of a command whose name is allowed, and the memory
pub record Ran {F C I : Type 0} (Allowed : Tag → Type 0) (P : Command F C I → Type 0) : Type 0 where
  pub runs :
      (r : Run F C I) (s : Command F C I)
      → Allowed r.tag
      → P s
      → P (record s { runs = s.runs ++ (r ∷ []) })
  pub memory : (m : Dict Tag (Dict F C)) (s : Command F C I) → P s → P (record s { memory = m })

-- What every other change keeps as well
pub record Kept {F C I : Type 0} ⦃family_key : Key F⦄ (Allowed : Tag → Type 0)
    (P : Command F C I → Type 0) : Type 0 where
  pub ran : Ran Allowed P
  pub flags : (f : F) (v : Flags) (s : Command F C I) → IsFlags v → P s → P (set_flags f v s)
  pub reset : (s : Command F C I) → P s → P (record s { flags = [] })
  pub epochs :
      (a : Option ℕ) (b : ℕ) (s : Command F C I)
      → P s
      → P (record s { actions_epoch = a; ban_epoch = b })

module _ {F C I : Type 0} ⦃family_key : Key F⦄ ⦃command_key : Key C⦄ {Allowed : Tag → Type 0}
    {P : Command F C I → Type 0} (ran : Ran Allowed P) where
  pub forget-Kept : (tag : Tag) (f : F) (s : Command F C I) → P s → P (forget tag f s)
  unfolding forget
  forget-Kept tag f s h = elim (Option-cases (lookup tag s.memory)) [
    | inl e ↦ rw (forget, e) h
    | inr (d, e) ↦ elim (Option-cases (lookup f d)) [
      | inl e' ↦ rw (forget, e, e') h
      | inr (c, e') ↦ rw (forget, e, e') (ran.memory _ s h)
    ]
  ]

  pub after_stop-Kept : (f : F) (ret : Bool) (s : Command F C I) → P s → P (after_stop f ret s)
  unfolding after_stop
  after_stop-Kept f true s h = forget-Kept action_start f s h
  after_stop-Kept f false s h = h

  pub note_executed-Kept :
      (setup : Setup F C I) (tag : Tag) (f : F) (c : C) (ret : Bool) (s : Command F C I)
      → P s
      → P (note_executed setup tag f c ret s)
  unfolding note_executed remember
  note_executed-Kept setup tag f c ret s h = elim (Bool-cases (ret && not (setup.is_empty c))) [
    | inl e ↦ rw (note_executed, e) (ran.memory _ s h)
    | inr e ↦ rw (note_executed, e) (forget-Kept tag f s h)
  ]

  module _ (setup : Setup F C I) (answer : List (Run F C I) → Run F C I → Bool) where
    pub execute_cmd-Kept :
        (tag : Tag) (f : F) (info : Option I) (c : C) (s : Command F C I)
        → Allowed tag
        → P s
        → P (execute_cmd setup answer tag f info c s).1
    unfolding execute_cmd
    execute_cmd-Kept tag f info c s a h = elim (Bool-cases (setup.is_empty c)) [
      | inl e ↦ rw (execute_cmd, e) h
      | inr e ↦ rw (execute_cmd, e) (ran.runs _ s a h)
    ]

    pub execute_once-Kept :
        (tag : Tag) (f : F) (c : C) (s : Command F C I)
        → Allowed tag
        → P s
        → P (execute_once setup answer tag f c s).1
    unfolding execute_once
    execute_once-Kept tag f c s a h =
        elim (Bool-cases (setup.is_empty c || executed_for_other tag f c s)) [
          | inl e ↦ rw (execute_once, e) h
          | inr e ↦ rw (execute_once, e) (execute_cmd-Kept tag f none c s a h)
        ]

    pub execute_each-Kept :
        (tag : Tag) (after : F → Bool → Command F C I → Command F C I)
        → ((f : F) (ret : Bool) (s : Command F C I) → P s → P (after f ret s))
        → Allowed tag
        → (fs : List F) (res : Bool) (s : Command F C I) → P s
        → P (execute_each setup answer tag after fs res s).1
    unfolding execute_each
    execute_each-Kept tag after keeps a [] res s h = h
    execute_each-Kept tag after keeps a (f ∷ fs) res s h =
        elim (Option-cases (get_operation setup tag f)) [
          | inl e ↦ rw (execute_each, e) (execute_each-Kept tag after keeps a fs false s h)
          | inr (c, e) ↦
              rw (execute_each, e)
                (execute_each-Kept tag after keeps a fs _ _ (
                  note_executed-Kept setup tag f c _ _
                    (keeps f _ _ (execute_once-Kept tag f c s a h))))
        ]

    pub execute_operation-Kept :
        (tag : Tag) (after : F → Bool → Command F C I → Command F C I)
        → ((f : F) (ret : Bool) (s : Command F C I) → P s → P (after f ret s))
        → Allowed tag
        → (fs : List F) (s : Command F C I) → P s
        → P (state_of (execute_operation setup answer tag fs after s))
    unfolding execute_operation state_of
    execute_operation-Kept tag after keeps a fs s h =
        let fs' : List F = elim fs [ [] ↦ families_with is_set s | f ∷ gs ↦ f ∷ gs ] in
        let r = execute_each setup answer tag after fs' true s in
        let held = execute_each-Kept tag after keeps a fs' true s h in
        elim (Bool-cases r.0) [
          | inl e ↦ rw (execute_operation, e) held
          | inr e ↦ rw (execute_operation, e) held
        ]

module _ {F C I : Type 0} ⦃family_key : Key F⦄ ⦃command_key : Key C⦄ {Allowed : Tag → Type 0}
    {P : Command F C I → Type 0} (kept : Kept Allowed P) where
  pub after_start-Kept : (f : F) (ret : Bool) (s : Command F C I) → P s → P (after_start f ret s)
  unfolding after_start
  after_start-Kept f true s h =
      kept.flags f only_started _ (λ e. refl) (forget-Kept kept.ran action_stop f s h)
  after_start-Kept f false s h = h

  pub after_flush-Kept : (f : F) (ret : Bool) (s : Command F C I) → P s → P (after_flush f ret s)
  unfolding after_flush
  after_flush-Kept f ret s h = elim (Bool-cases (ret && is_set (flags_of f s))) [
    | inl e ↦ rw (after_flush, e) (kept.flags f _ s (λ (x : false ≡ true). absurd (cc)) h)
    | inr e ↦ rw (after_flush, e) h
  ]
