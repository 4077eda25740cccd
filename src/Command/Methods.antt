-- ===== src/Command/Methods.antt =====
-- The methods of `CommandAction` of fail2ban/server/action.py keep what their steps keep.
use fail2ban.Common.{
  refl, ℕ, Bool, false, not, ◌&&◌, Option, none, some, List, if◌then◌else◌, Bool-cases,
  Option-cases, inl, inr, List-cases, ltb,
}
use fail2ban.Common.Dict.{Key, lookup, contains}
use fail2ban.Command.{
  Tag, tag_key, action_start, action_stop, action_check, action_repair, action_flush, Run, Setup,
  Command, Exit, returns, runtime_error, value_error, state_of, and_then, is_set, only_started,
  no_flags, flags_of, families_with, execute_cmd, get_operation,
}
use fail2ban.Command.Calls.{
  after_start, after_stop, after_flush, invalidate_ban_epoch, start_families, stop_command,
  stop_family, flush_command, check_again, repair, invariant_check, check_round,
}
use fail2ban.Command.Kept.{
  Kept, after_start-Kept, after_stop-Kept, after_flush-Kept, execute_cmd-Kept,
  execute_operation-Kept,
}

module _ {S A B : Type 0} (P : S → Type 0) where
  pub and_then-Kept :
      (x : Exit S A) (k : A → S → Exit S B)
      → P (state_of x)
      → ((a : A) (s : S) → P s → P (state_of (k a s)))
      → P (state_of (and_then x k))
  unfolding and_then state_of
  and_then-Kept (returns a s) k h keeps = keeps a s h
  and_then-Kept (runtime_error s) k h keeps = h
  and_then-Kept (value_error s) k h keeps = h

-- The names of the commands that a check and a repair run
pub record Repairs (Allowed : Tag → Type 0) : Type 0 where
  pub start : Allowed action_start
  pub stop : Allowed action_stop
  pub check : Allowed action_check
  pub repair : Allowed action_repair

module _ {F C I : Type 0} ⦃family_key : Key F⦄ ⦃command_key : Key C⦄ {Allowed : Tag → Type 0}
    {P : Command F C I → Type 0} (kept : Kept Allowed P) (setup : Setup F C I)
    (answer : List (Run F C I) → Run F C I → Bool) where
  pub invalidate-Kept : (s : Command F C I) → P s → P (invalidate_ban_epoch s)
  unfolding invalidate_ban_epoch
  invalidate-Kept s h = elim (Option-cases s.actions_epoch) [
    | inl e ↦ rw (invalidate_ban_epoch, e) (kept.epochs _ _ s h)
    | inr (n, e) ↦ rw (invalidate_ban_epoch, e) (kept.epochs _ _ s h)
  ]

  pub start_families-Kept :
      Allowed action_start
      → (family : Option F) (force : Bool) (s : Command F C I) → P s
      → P (state_of (start_families setup answer family force s))
  unfolding start_families state_of
  start_families-Kept a family force s h =
      let already : Bool = elim family [ none ↦ false | some f ↦ is_set (flags_of f s) ] in
      let skip : Bool = if setup.start_on_demand then not force else (not force && already) in
      elim (Bool-cases skip) [
        | inl e ↦ rw (start_families, e) h
        | inr e ↦
            rw (start_families, e)
              (execute_operation-Kept kept.ran setup answer action_start after_start
                (after_start-Kept kept) a _ s h)
      ]

  pub stop_family-Kept :
      Allowed action_stop
      → (f : F) (s : Command F C I) → P s
      → P (state_of (stop_family setup answer f s))
  unfolding stop_family state_of
  stop_family-Kept a f s h = elim (Option-cases (lookup f s.flags)) [
    | inl e ↦ rw (stop_family, e) h
    | inr (v, e) ↦
        rw (stop_family, e)
          (execute_operation-Kept kept.ran setup answer action_stop after_stop
            (after_stop-Kept kept.ran) a _ _ (kept.flags f no_flags s (λ x. x) h))
  ]

  pub stop_command-Kept :
      Allowed action_stop → (s : Command F C I) → P s → P (state_of (stop_command setup answer s))
  unfolding stop_command state_of
  stop_command-Kept a s h = elim (List-cases (families_with is_set s)) [
    | inl e ↦ rw (stop_command, e) h
    | inr (f, fs, e) ↦
        rw (stop_command, e)
          (execute_operation-Kept kept.ran setup answer action_stop after_stop
            (after_stop-Kept kept.ran) a _ _ (kept.reset s h))
  ]

  pub flush_command-Kept :
      Allowed action_flush → (s : Command F C I) → P s → P (state_of (flush_command setup answer s))
  unfolding flush_command state_of
  flush_command-Kept a s h =
      elim (List-cases (families_with (λ v. v.is_started && v.has_items) s)) [
        | inl e ↦ rw (flush_command, e) h
        | inr (f, fs, e) ↦
            rw (flush_command, e)
              (execute_operation-Kept kept.ran setup answer action_flush after_flush
                (after_flush-Kept kept) a _ s h)
      ]

  module _ (repairs : Repairs Allowed) where
    check_again-Kept :
        (f : F) (c : C) (s : Command F C I) → P s → P (state_of (check_again setup answer f c s))
    unfolding check_again state_of
    check_again-Kept f c s h = elim (Bool-cases (is_set (flags_of f s))) [
      | inl e ↦
          rw (check_again, e)
            (execute_cmd-Kept kept.ran setup answer action_check f none c s repairs.check h)
      | inr e ↦ rw (check_again, e) h
    ]

    repair-Kept :
        (f : F) (force : Bool) (check : C) (s : Command F C I)
        → P s
        → P (state_of (repair setup answer f force check s))
    unfolding repair state_of
    repair-Kept f force check s h = elim (Option-cases (get_operation setup action_repair f)) [
      | inl e ↦ rw (repair, e) h
      | inr (c, e) ↦ elim (Bool-cases (setup.is_empty c)) [
        | inl restart ↦
            rw (repair, e, restart)
              (and_then-Kept P _ _
                (start_families-Kept repairs.start (some f) _ _
                  (stop_family-Kept repairs.stop f s h))
                (λ _ s' h'. check_again-Kept f check s' h'))
        | inr command ↦
            let r = execute_cmd setup answer action_repair f none c s in
            let ran =
              execute_cmd-Kept kept.ran setup answer action_repair f none c s repairs.repair h in
            elim (Bool-cases r.0) [
              | inl ok ↦
                  rw (repair, e, command, ok)
                    (check_again-Kept f check _ (kept.flags f only_started _ (λ x. refl) ran))
              | inr bad ↦ rw (repair, e, command, bad) (kept.flags f no_flags _ (λ x. x) ran)
            ]
      ]
    ]

    pub invariant_check-Kept :
        (f : F) (may_repair force : Bool) (s : Command F C I)
        → P s
        → P (state_of (invariant_check setup answer f may_repair force s))
    unfolding invariant_check state_of
    invariant_check-Kept f may_repair force s h =
        elim (Bool-cases (not force && not (contains f s.flags))) [
          | inl e ↦ rw (invariant_check, e) h
          | inr e ↦ elim (Option-cases (get_operation setup action_check f)) [
            | inl e' ↦ rw (invariant_check, e, e') h
            | inr (c, e') ↦
                let r = execute_cmd setup answer action_check f none c s in
                let ran =
                  execute_cmd-Kept kept.ran setup answer action_check f none c s repairs.check h in
                elim (Bool-cases r.0) [
                  | inl ok ↦ rw (invariant_check, e, e', ok) ran
                  | inr bad ↦ elim (Bool-cases may_repair) [
                    | inl m ↦
                        rw (invariant_check, e, e', bad, m)
                          (repair-Kept f force c _ (invalidate-Kept _ ran))
                    | inr m ↦ rw (invariant_check, e, e', bad, m) ran
                  ]
                ]
          ]
        ]

    pub check_round-Kept :
        (repcnt : ℕ) (tag : Tag) (f : F) (s : Command F C I)
        → P s
        → P (state_of (check_round setup answer repcnt tag f s))
    unfolding check_round state_of
    check_round-Kept repcnt tag f s h = elim (Bool-cases (ltb 0 repcnt && setup.has_check)) [
      | inl e ↦ rw (check_round, e) (invariant_check-Kept f _ _ s h)
      | inr e ↦ rw (check_round, e) h
    ]
