-- ===== src/Command/Calls.antt =====
-- The methods of `CommandAction` of fail2ban/server/action.py: `start`, `ban`, `reban`, `prolong`,
-- `unban`, `flush`, `stop`, `reload`, `consistencyCheck`, `_invariantCheck` and `_processCmd`.
use fail2ban.Common.{
  ℕ, zero, suc, ◌+◌, Bool, true, false, not, ◌&&◌, ◌||◌, Option, none, some, List, [], ◌∷◌, ltb,
  if◌then◌else◌,
}
use fail2ban.Common.Dict.{Key, Dict, lookup, contains}
use fail2ban.Command.{
  Tag, tag_key, action_start, action_stop, action_check, action_repair, action_flush, action_reload,
  action_ban, action_reban, action_unban, action_prolong, Flags, Run, Setup, Command, Exit, returns,
  runtime_error, value_error, state_of, and_then, is_set, only_started, with_items, no_flags, same,
  flags_of, set_flags, families_with, forget, execute_cmd, get_operation, execute_operation,
}

-- What `_invariantCheck` returns: 1, -1 or 0
pub data Check : Type 0 where
  sane not_repaired broken : Check

module _ {F C I : Type 0} ⦃family_key : Key F⦄ ⦃command_key : Key C⦄ where
  -- `_started` in `_start`
  unfoldable pub after_start : F → Bool → Command F C I → Command F C I
  after_start f ret s = if ret then set_flags f only_started (forget action_stop f s) else s

  -- `_stopped` in `_stop`
  unfoldable pub after_stop : F → Bool → Command F C I → Command F C I
  after_stop f ret s = if ret then forget action_start f s else s

  -- `_afterFlush` in `flush`
  unfoldable pub after_flush : F → Bool → Command F C I → Command F C I
  after_flush f ret s =
      if ret && is_set (flags_of f s)
      then set_flags f (record (flags_of f s) { has_items = false }) s
      else s

  -- `invalidateBanEpoch`
  unfoldable pub invalidate_ban_epoch : Command F C I → Command F C I
  invalidate_ban_epoch s = elim s.actions_epoch [
    | some n ↦ record s { actions_epoch = some (n + 1); ban_epoch = n + 1 }
    | none ↦ record s { ban_epoch = s.ban_epoch + 1 }
  ]

  -- What `consistencyCheck` does after the check of a family
  unfoldable pub note_check : F → Check → Bool → Command F C I → Bool × Command F C I
  note_check f sane ret s = (ret, s)
  note_check f not_repaired ret s = (ret, s)
  note_check f broken ret s = (false, forget action_start f (set_flags f no_flags s))

  module _ (setup : Setup F C I) (answer : List (Run F C I) → Run F C I → Bool) where
    -- `_start`
    unfoldable pub start_families : Option F → Bool → Command F C I → Exit (Command F C I) Bool
    start_families family force s =
        let already : Bool = elim family [ none ↦ false | some f ↦ is_set (flags_of f s) ] in
        if (if setup.start_on_demand then not force else (not force && already))
        then returns true s
        else execute_operation setup answer action_start
            (elim family as (λ _. List F) [ none ↦ setup.families | some f ↦ f ∷ [] ]) after_start s

    -- `start`
    unfoldable pub start_command : Command F C I → Exit (Command F C I) Bool
    start_command s = start_families none false s

    -- `_stop` of all started families, `stop`
    unfoldable pub stop_command : Command F C I → Exit (Command F C I) Bool
    stop_command s = elim (families_with is_set s) [
      | [] ↦ returns true s
      | f ∷ fs ↦
          execute_operation setup answer action_stop (f ∷ fs) after_stop (record s { flags = [] })
    ]

    -- `_stop` of one family
    unfoldable pub stop_family : F → Command F C I → Exit (Command F C I) Bool
    stop_family f s = elim (lookup f s.flags) [
      | none ↦ returns true s
      | some v ↦
          execute_operation setup answer action_stop (f ∷ []) after_stop (set_flags f no_flags s)
    ]

    -- `flush`
    unfoldable pub flush_command : Command F C I → Exit (Command F C I) Bool
    flush_command s = elim (families_with (λ v. v.is_started && v.has_items) s) [
      | [] ↦ returns true s
      | f ∷ fs ↦ execute_operation setup answer action_flush (f ∷ fs) after_flush s
    ]

    -- `reload`
    unfoldable pub reload_command : Command F C I → Exit (Command F C I) Bool
    reload_command s = execute_operation setup answer action_reload [] (λ f ret s'. s') s

    -- The check after a repair in `_invariantCheck`
    unfoldable pub check_again : F → C → Command F C I → Exit (Command F C I) Check
    check_again f c s =
        if is_set (flags_of f s)
        then (let r = execute_cmd setup answer action_check f none c s in
            returns (if r.0 then sane else broken) r.1)
        else returns sane s

    -- The repair in `_invariantCheck`, by `actionrepair` if there is one, by a restart otherwise
    unfoldable pub repair : F → Bool → C → Command F C I → Exit (Command F C I) Check
    repair f force check s = elim (get_operation setup action_repair f) [
      | none ↦ value_error s
      | some c ↦
          if setup.is_empty c
          then and_then
              (start_families (some f) (force || not setup.start_on_demand)
                (state_of (stop_family f s)))
              (λ _ s'. check_again f check s')
          else (let r = execute_cmd setup answer action_repair f none c s in
              if r.0
              then check_again f check (set_flags f only_started r.1)
              else returns broken (set_flags f no_flags r.1))
    ]

    -- `_invariantCheck`; `may_repair` is what `beforeRepair` returns, `true` without one.
    unfoldable pub invariant_check : F → Bool → Bool → Command F C I → Exit (Command F C I) Check
    invariant_check f may_repair force s =
        if not force && not (contains f s.flags)
        then returns sane s
        else elim (get_operation setup action_check f) [
          | none ↦ value_error s
          | some c ↦
              let r = execute_cmd setup answer action_check f none c s in
              if r.0
              then returns sane r.1
              else if may_repair
              then repair f force c (invalidate_ban_epoch r.1)
              else returns not_repaired r.1
        ]

    -- The check that a round of `_processCmd` begins with, after `repcnt` rounds
    unfoldable pub check_round : ℕ → Tag → F → Command F C I → Exit (Command F C I) Check
    check_round repcnt tag f s =
        let is_unban = same tag action_unban in
        if ltb 0 repcnt && setup.has_check
        then invariant_check f (not (is_unban && not setup.repair_on_unban)) (not is_unban) s
        else returns sane s

    -- A round of `_processCmd` after its check, with the rounds that may follow
    unfoldable pub process_round :
        (Command F C I → Exit (Command F C I) Bool)
        → ℕ
        → Tag
        → I
        → Check
        → Command F C I
        → Exit (Command F C I) Bool
    process_round next repcnt tag i not_repaired s = returns false s
    process_round next repcnt tag i broken s = returns false s
    process_round next repcnt tag i sane s = elim (setup.replace_tag tag (setup.family_of i)) [
      | none ↦ value_error s
      | some c ↦
          let r = execute_cmd setup answer tag (setup.family_of i) (some i) c s in
          if r.0 || ltb 1 (repcnt + 1) then returns r.0 r.1 else next r.1
    ]

    -- The loop of `_processCmd` with `fuel` rounds left, after `repcnt` rounds; `out` is the result
    -- where no fuel is left.
    unfoldable pub process_loop :
        Exit (Command F C I) Bool → ℕ → ℕ → Tag → I → Command F C I → Exit (Command F C I) Bool
    process_loop out zero repcnt tag i s = out
    process_loop out (suc fuel) repcnt tag i s =
        and_then (check_round repcnt tag (setup.family_of i) s)
          (λ c s'. process_round (process_loop out fuel (repcnt + 1) tag i) repcnt tag i c s')

    -- `_processCmd`, with more fuel than the two rounds that it takes at most
    unfoldable pub process_cmd : Tag → I → Command F C I → Exit (Command F C I) Bool
    process_cmd tag i s = process_loop (returns false s) 10 0 tag i s

    -- `ban`, with the name of its command
    unfoldable pub ban_by : Tag → I → Command F C I → Exit (Command F C I) Bool
    ban_by tag i s =
        let f = setup.family_of i in
        and_then
          (if setup.start_on_demand && not (is_set (flags_of f s))
            then start_families (some f) true s
            else returns true s)
          (λ _ s'.
            and_then (process_cmd tag i s') (λ ok s''.
              if ok then returns true (set_flags f with_items s'') else runtime_error s''))

    -- `ban`
    unfoldable pub ban_command : I → Command F C I → Exit (Command F C I) Bool
    ban_command i s = ban_by action_ban i s

    -- `reban`
    unfoldable pub reban_command : I → Command F C I → Exit (Command F C I) Bool
    reban_command i s = ban_by (if setup.has_reban then action_reban else action_ban) i s

    -- `prolong`
    unfoldable pub prolong_command : I → Command F C I → Exit (Command F C I) Bool
    prolong_command i s =
        and_then (process_cmd action_prolong i s)
          (λ ok s'. if ok then returns true s' else runtime_error s')

    -- `unban`
    unfoldable pub unban_command : I → Command F C I → Exit (Command F C I) Bool
    unban_command i s =
        if (flags_of (setup.family_of i) s).has_items
        then and_then (process_cmd action_unban i s)
            (λ ok s'. if ok then returns true s' else runtime_error s')
        else returns true s

    -- The loop of `consistencyCheck`
    unfoldable pub check_each :
        Bool → Dict F Flags → Bool → Command F C I → Exit (Command F C I) Bool
    check_each may_repair [] ret s = returns ret s
    check_each may_repair (e ∷ es) ret s =
        and_then (if is_set e.1 then invariant_check e.0 may_repair true s else returns sane s)
          (λ c s'. let r = note_check e.0 c ret s' in check_each may_repair es r.0 r.1)

    -- `consistencyCheck`
    unfoldable pub consistency_check : Bool → Command F C I → Exit (Command F C I) Bool
    consistency_check may_repair s =
        if setup.has_check then check_each may_repair s.flags true s else returns true s
