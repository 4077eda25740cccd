-- ===== src/Command.antt =====
-- `CommandAction` of fail2ban/server/action.py: the commands of an action, which of its families are
-- started and contain items, and the memory of executed commands. Replacing the static tags of a
-- command is the parameter `replace_tag` of `Setup`; the values of a ban are filled in by the shell
-- that runs it, whose answer is a parameter that may depend on all commands run before. Log lines,
-- the time out and the cache of replaced tags are left out.
pub mod Calls
pub mod Escape
pub mod Kept
pub mod Methods
pub mod Rounds
pub mod Invariant
pub mod Tries
pub mod Success
pub mod Families
pub mod Flush
pub mod Memory
pub mod Once
pub mod Stops
pub mod Skips
pub mod Unbans
use fail2ban.Common.{
  ℕ, ◌+◌, Bool, true, false, not, ◌&&◌, ◌||◌, Option, none, some, List, [], ◌∷◌, ◌++◌, keep, any,
  map, if◌then◌else◌,
}
use fail2ban.Common.Dict.{Key, Dict, lookup, insert, erase, contains}

-- The names of the commands
pub data Tag : Type 0 where
  action_start action_stop action_check action_repair action_flush action_reload : Tag
  action_ban action_reban action_unban action_prolong : Tag

unfoldable pub tag_discrete : Discrete Tag
tag_discrete = Tag.discrete_by_fields

instance abbrev pub tag_key : Key Tag
tag_key = record { same = tag_discrete }

-- The flags of a family in `__started`: bit 1 and bit 2
pub record Flags : Type 0 where
  pub is_started : Bool
  pub has_items : Bool

-- A command that the shell runs
pub record Run (F C I : Type 0) : Type 0 where
  pub tag : Tag
  pub family : F
  pub info : Option I
  pub command : C

-- The properties of an action that its methods read; `replace_tag` is `none` where it raises
-- `ValueError`.
pub record Setup (F C I : Type 0) : Type 0 where
  pub families : List F
  pub no_family : F
  pub start_on_demand : Bool
  pub has_check : Bool
  pub has_reban : Bool
  pub repair_on_unban : Bool
  pub replace_tag : Tag → F → Option C
  pub add_family : F → C → C
  pub is_empty : C → Bool
  pub family_of : I → F

-- `CommandAction`, with the ban epochs of its jail's actions (`none` without a jail) and its own;
-- `memory` is what `_operationExecuted` keeps in the cache.
pub record Command (F C I : Type 0) : Type 0 where
  pub flags : Dict F Flags
  pub memory : Dict Tag (Dict F C)
  pub runs : List (Run F C I)
  pub actions_epoch : Option ℕ
  pub ban_epoch : ℕ

-- How a method ends: a value, `RuntimeError` or `ValueError`, with the state that it leaves
pub data Exit (S A : Type 0) : Type 0 where
  returns : A → S → Exit S A
  runtime_error : S → Exit S A
  value_error : S → Exit S A

module _ {S A : Type 0} where
  unfoldable pub state_of : Exit S A → S
  state_of (returns a s) = s
  state_of (runtime_error s) = s
  state_of (value_error s) = s

module _ {S A B : Type 0} where
  -- One call after another
  unfoldable pub and_then : Exit S A → (A → S → Exit S B) → Exit S B
  and_then (returns a s) k = k a s
  and_then (runtime_error s) k = runtime_error s
  and_then (value_error s) k = value_error s

-- Whether flags are not 0
unfoldable pub is_set : Flags → Bool
is_set v = v.is_started || v.has_items

abbrev pub only_started : Flags
only_started = record { is_started = true; has_items = false }

abbrev pub with_items : Flags
with_items = record { is_started = true; has_items = true }

abbrev pub no_flags : Flags
no_flags = record { is_started = false; has_items = false }

module _ {F C I : Type 0} ⦃family_key : Key F⦄ where
  -- `self.__started.get(family, 0)`
  unfoldable pub flags_of : F → Command F C I → Flags
  flags_of f s = elim (lookup f s.flags) [ none ↦ no_flags | some v ↦ v ]

  unfoldable pub set_flags : F → Flags → Command F C I → Command F C I
  set_flags f v s = record s { flags = insert f v s.flags }

  -- `[f for (f,v) in self.__started.items() if ...]`
  unfoldable pub families_with : (Flags → Bool) → Command F C I → List F
  families_with p s = map (λ e. e.0) (keep (λ e. p e.1) s.flags)

module _ {K : Type 0} ⦃key : Key K⦄ where
  unfoldable pub same : K → K → Bool
  same a b = elim (key.same a b) [ yes _ ↦ true | no _ ↦ false ]

module _ {F C I : Type 0} ⦃family_key : Key F⦄ ⦃command_key : Key C⦄ where
  -- `self.__substCache.get(('__eOpCmd', tag), {})`
  unfoldable pub executed : Tag → Command F C I → Dict F C
  executed tag s = elim (lookup tag s.memory) [ none ↦ [] | some d ↦ d ]

  -- `_operationExecuted` with a command
  unfoldable pub remember : Tag → F → C → Command F C I → Command F C I
  unfolding executed
  remember tag f c s = record s { memory = insert tag (insert f c (executed tag s)) s.memory }

  -- `_operationExecuted` with `None`
  unfoldable pub forget : Tag → F → Command F C I → Command F C I
  unfolding same
  forget tag f s = elim (lookup tag s.memory) [
    | none ↦ s
    | some d ↦ elim (lookup f d) [
      | none ↦ s
      | some c ↦ record s {
        memory = insert tag (keep (λ e. not (same e.1 c)) (erase f d)) s.memory;
      }
    ]
  ]

  -- `cmd not in self._operationExecuted(tag, lambda f: f != famoper)`, negated
  unfoldable pub executed_for_other : Tag → F → C → Command F C I → Bool
  unfolding executed same
  executed_for_other tag f c s = any (λ e. not (same e.0 f) && same e.1 c) (executed tag s)

  module _ (setup : Setup F C I) where
    -- `_getOperation`
    unfoldable pub get_operation : Tag → F → Option C
    get_operation tag f = elim (setup.replace_tag tag f) [
      | none ↦ none
      | some c ↦ some (if same f setup.no_family then c else setup.add_family f c)
    ]

    -- What follows the command of a family in the loop of `_executeOperation`
    unfoldable pub note_executed : Tag → F → C → Bool → Command F C I → Command F C I
    unfolding remember forget
    note_executed tag f c ret s =
        if ret && not (setup.is_empty c) then remember tag f c s else forget tag f s

  module _ (setup : Setup F C I) (answer : List (Run F C I) → Run F C I → Bool) where
    -- `executeCmd`
    unfoldable pub execute_cmd : Tag → F → Option I → C → Command F C I → Bool × Command F C I
    execute_cmd tag f info c s =
        let r : Run F C I = record { tag = tag; family = f; info = info; command = c } in
        if setup.is_empty c
        then (true, s)
        else (answer s.runs r, record s { runs = s.runs ++ (r ∷ []) })

    -- The command of one family in the loop of `_executeOperation`
    unfoldable pub execute_once : Tag → F → C → Command F C I → Bool × Command F C I
    unfolding execute_cmd executed_for_other
    execute_once tag f c s =
        if setup.is_empty c || executed_for_other tag f c s
        then (true, s)
        else execute_cmd tag f none c s

    -- The loop of `_executeOperation`
    unfoldable pub execute_each :
        Tag
        → (F → Bool → Command F C I → Command F C I)
        → List F
        → Bool
        → Command F C I
        → Bool × Command F C I
    unfolding get_operation execute_once note_executed
    execute_each tag after [] res s = (res, s)
    execute_each tag after (f ∷ fs) res s = elim (get_operation setup tag f) [
      | none ↦ execute_each tag after fs false s
      | some c ↦
          let r = execute_once tag f c s in
          execute_each tag after fs (res && r.0) (note_executed setup tag f c r.0 (after f r.0 r.1))
    ]

    -- `_executeOperation`
    unfoldable pub execute_operation :
        Tag
        → List F
        → (F → Bool → Command F C I → Command F C I)
        → Command F C I
        → Exit (Command F C I) Bool
    unfolding execute_each families_with is_set
    execute_operation tag fs after s =
        let fs' : List F = elim fs [ [] ↦ families_with is_set s | f ∷ fs' ↦ f ∷ fs' ] in
        let r = execute_each tag after fs' true s in
        if r.0 then returns true r.1 else runtime_error r.1
