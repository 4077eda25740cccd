-- ===== src/Tests/CommandTests.antt =====
-- The theorems about the commands of actions at concrete inputs.
use fail2ban.Common.{
  ℕ, ◌+◌, ◌%◌, ◌≤◌, ◌≡◌, refl, Bool, true, false, Option, none, some, List, [], ◌∷◌, map, ◌==◌,
  Bool-cases, inl, inr,
}
use fail2ban.Samples.{nat_key, ℕ_discrete}
use fail2ban.Command.{
  Tag, tag_key, tag_discrete, action_start, action_stop, action_check, action_repair, action_flush,
  action_reload, action_ban, action_reban, action_unban, action_prolong, Run, Setup, Command,
  returns, runtime_error, state_of, is_set, with_items, flags_of, families_with, get_operation,
  executed, forget, same, and_then, execute_cmd, set_flags, execute_operation, execute_each,
  execute_once, note_executed, executed_for_other, remember,
}
use fail2ban.Command.Calls.{
  stop_command, flush_command, process_loop, process_cmd, ban_by, unban_command, process_round,
  check_round, after_flush,
}
use fail2ban.Command.Invariant.{
  IsValid, do_ban, do_unban, do_flush, do_check, do_stop, call_methods, call_methods-IsValid,
}
use fail2ban.Command.Escape.{escape_tag, shell_text, letter_of, shell_text-escape_tag}
use fail2ban.Command.Tries.{process_loop_ends, process_cmd_twice, count_runs}
use fail2ban.Command.Success.{Done, ban_by-Done}
use fail2ban.Command.Flush.{flush_command_clears}
use fail2ban.Command.Once.{once_each}
use fail2ban.Command.Stops.{stop_command_runs}
use fail2ban.Command.Skips.{flush_command_skips}
use fail2ban.Command.Unbans.{OnlyRuns, unban_command-OnlyRuns}

-- The number 0 is the empty command; the start command depends on the family.
abbrev text_of : Tag → ℕ → Option ℕ
text_of action_start f = some (10 + f)
text_of action_stop f = some 2
text_of action_check f = some 3
text_of action_repair f = some 0
text_of action_flush f = some 4
text_of action_reload f = some 0
text_of action_ban f = some 5
text_of action_reban f = some 0
text_of action_unban f = some 6
text_of action_prolong f = some 0

abbrev shared_commands : Setup ℕ ℕ ℕ
shared_commands = record {
  families = 0 ∷ 1 ∷ [];
  no_family = 9;
  start_on_demand = true;
  has_check = true;
  has_reban = false;
  repair_on_unban = false;
  replace_tag = text_of;
  add_family = λ f c. c;
  is_empty = λ c. c == 0;
  family_of = λ i. i % 2;
}

abbrev all_well : List (Run ℕ ℕ ℕ) → Run ℕ ℕ ℕ → Bool
all_well rs r = true

abbrev all_fail : List (Run ℕ ℕ ℕ) → Run ℕ ℕ ℕ → Bool
all_fail rs r = false

-- Both families are started and contain items.
abbrev two_families : Command ℕ ℕ ℕ
two_families = record {
  flags = (0, with_items) ∷ (1, with_items) ∷ [];
  memory = [];
  runs = [];
  actions_epoch = some 0;
  ban_epoch = 0;
}

two_families-IsValid : IsValid two_families
unfolding ℕ_discrete
two_families-IsValid = record {
  distinct = (refl, (refl, tt));
  items = (λ x. refl, (λ x. refl, tt));
}

call_methods-IsValid_example : IsValid (
    call_methods shared_commands all_fail
      (do_ban 4 ∷ do_flush ∷ do_check true ∷ do_unban 5 ∷ do_stop ∷ [])
      two_families)
call_methods-IsValid_example =
    call_methods-IsValid shared_commands all_fail
      (do_ban 4 ∷ do_flush ∷ do_check true ∷ do_unban 5 ∷ do_stop ∷ []) two_families
      two_families-IsValid

process_loop_ends_example :
    process_loop shared_commands all_fail (runtime_error two_families) 5 0 action_ban 4 two_families
    ≡ process_loop shared_commands all_fail
        (returns true two_families)
        2
        0
        action_ban
        4
        two_families
process_loop_ends_example =
    process_loop_ends shared_commands all_fail (runtime_error two_families)
      (returns true two_families) 3 action_ban 4 two_families

process_cmd_twice_example :
    count_runs action_ban
      (state_of (process_cmd shared_commands all_fail action_ban 4 two_families)).runs
    ≤ 2
process_cmd_twice_example =
    process_cmd_twice shared_commands all_fail action_ban 4 two_families (record {
      start = λ x. absurd (cc);
      stop = λ x. absurd (cc);
      check = λ x. absurd (cc);
      repair = λ x. absurd (cc);
    })

shared_stop : (f : ℕ) → get_operation shared_commands action_stop f ≡ some 2
unfolding get_operation
shared_stop f = elim (Bool-cases (same f 9)) [
  | inl e ↦ rw (get_operation, e) refl
  | inr e ↦ rw (get_operation, e) refl
]

shared_flush : (f : ℕ) → get_operation shared_commands action_flush f ≡ some 4
unfolding get_operation
shared_flush f = elim (Bool-cases (same f 9)) [
  | inl e ↦ rw (get_operation, e) refl
  | inr e ↦ rw (get_operation, e) refl
]

stop_command_runs_example :
    (state_of (stop_command shared_commands all_well two_families)).runs
    ≡ once_each shared_commands all_well action_stop
        (λ f. 2)
        []
        []
        (families_with is_set two_families)
unfolding executed
stop_command_runs_example =
    stop_command_runs shared_commands all_well (λ f. 2) two_families shared_stop
      two_families-IsValid refl

run : Unit {0}
unfolding ban_by process_cmd process_loop process_round check_round and_then execute_cmd flags_of
    set_flags is_set state_of same ℕ_discrete tag_discrete flush_command execute_operation
    execute_each execute_once note_executed executed_for_other after_flush families_with
    get_operation remember forget executed
run = tt

ban_by-Done_example :
    (flags_of 0 (state_of (ban_by shared_commands all_well action_ban 4 two_families)) ≡ with_items)
    × Done shared_commands all_well action_ban 4
        (state_of (ban_by shared_commands all_well action_ban 4 two_families)).runs
unfolding run
ban_by-Done_example =
    ban_by-Done shared_commands all_well action_ban 4 true two_families
      (state_of (ban_by shared_commands all_well action_ban 4 two_families)) refl

flush_command_clears_example :
    (let s' = state_of (flush_command shared_commands all_well two_families) in
      ((flags_of 1 s').is_started ≡ (flags_of 1 two_families).is_started)
      × ((flags_of 1 s').has_items ≡ false))
unfolding run
flush_command_clears_example =
    flush_command_clears shared_commands all_well true two_families
      (state_of (flush_command shared_commands all_well two_families)) 1 two_families-IsValid refl

-- After a flush of both families
abbrev flushed_before : Command ℕ ℕ ℕ
flushed_before = record two_families { memory = (action_flush, (0, 4) ∷ (1, 4) ∷ []) ∷ [] }

flush_command_skips_example :
    (s' : Command ℕ ℕ ℕ) × (flush_command shared_commands all_fail flushed_before ≡ returns true s')
    × (s'.runs ≡ [])
unfolding run
flush_command_skips_example =
    flush_command_skips shared_commands all_fail 4 shared_flush refl 0 1 (λ x. absurd (cc))
      flushed_before refl refl

unban_command-OnlyRuns_example :
    OnlyRuns 1 two_families (state_of (unban_command shared_commands all_fail 5 two_families))
unban_command-OnlyRuns_example = unban_command-OnlyRuns shared_commands all_fail two_families 5 refl

-- The failed unban runs its command, and the check, once each.
unban_fails :
    unban_command shared_commands all_fail 5 two_families
    ≡ runtime_error (record two_families {
      runs =
          record { tag = action_unban; family = 1; info = some 5; command = 6 }
          ∷ record { tag = action_check; family = 1; info = none; command = 3 }
          ∷ [];
    })
unfolding run unban_command fail2ban.Command.Calls.invariant_check
unban_fails = refl

-- `a;b`, an end of a line, and `$x`
abbrev foreign : List ℕ
foreign = 97 ∷ 59 ∷ 98 ∷ 10 ∷ 36 ∷ 120 ∷ []

shell_text-escape_tag_example : shell_text false (escape_tag foreign) ≡ some (map letter_of foreign)
shell_text-escape_tag_example = shell_text-escape_tag foreign

-- Without the escapes the shell reads `;` and `$` as its own.
foreign_unescaped : shell_text false foreign ≡ none
foreign_unescaped = refl
