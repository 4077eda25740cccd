-- ===== src/Tests/ActionTests.antt =====
-- The theorems about the actions at concrete inputs: two actions, of which the second one fails at
-- every call.
use fail2ban.Common.{some, if◌then◌else◌, ℕ, ◌≡◌, ◌==◌, refl, true, false, none, List, [], ◌∷◌, map}
use Prim.Native.String.{String}
use fail2ban.Common.Int.{pos, ◌+ℤ◌, ◌-ℤ◌}
use fail2ban.Common.Dict.{Dict, contains}
use fail2ban.Samples.{ticket, nat_key, ℕ_discrete}
use fail2ban.Ticket.{
  wrap_ban, get_end_of_ban_time, get_ban_time, restored, set_banned, banned, incr_ban_count,
}
use fail2ban.BanManager.{
  new_ban_manager, end_of_ban, add_ban_ticket, add_unlisted, add_listed, get_ticket_by_id,
  flush_ban_list,
}
use fail2ban.Actions.{
  Action, Actions, Answer, Call, start, invalidate_times, call_action, call_unless, call_all,
  call_each, left_by, returned,
}
use fail2ban.Actions.Bans.{
  check_tickets, check_queue, check_ban, ban_ticket, ban_reported, ban_added, mark_banned,
  observe_ban,
}
use fail2ban.Actions.Unbans.{
  remove_banned, remove_one, un_ban, un_ban_all, delete_ban, flush_ban, flush_each, flush_one,
}
use fail2ban.Actions.Thread.{Round, thread_round, thread_rounds, end_round, run_thread}
use fail2ban.Actions.Reload.{end_reload_leaves}
use fail2ban.Actions.{stop_each, stop_actions}
use fail2ban.Actions.Unbans.{end_reload, reload_each, remove_obsolete}
use fail2ban.Actions.Told.{banned_by}
use fail2ban.Actions.Told.Keep.{InStep}
use fail2ban.Actions.Told.History.{stays, goes, adds, removes, told-Reaches}
use fail2ban.Actions.Told.Stop.{run_thread_repeals}

run : Unit {0}
unfolding left_by invalidate_times check_tickets check_queue check_ban ban_ticket ban_reported
    ban_added mark_banned observe_ban remove_banned remove_one un_ban un_ban_all delete_ban
    flush_ban flush_each flush_one call_action call_unless call_all call_each thread_round
    thread_rounds end_round wrap_ban get_end_of_ban_time get_ban_time restored set_banned banned
    incr_ban_count end_of_ban add_ban_ticket add_unlisted add_listed get_ticket_by_id flush_ban_list
    ◌+ℤ◌ ◌-ℤ◌ ℕ_discrete
run = tt

abbrev simple : Action
simple = record {
  no_restored = false;
  is_prolongable = false;
  can_flush = false;
  can_check = true;
  can_reload = true;
  can_clear = true;
  ban_epoch = 0;
}

abbrev flaky : List (ℕ × Call ℕ) → ℕ → Call ℕ → Answer
flaky log name c = record { ok = name == 1; value = true; repairs = 0 }

abbrev idle : Actions ℕ ℕ
idle = record {
  actions = (1, simple) ∷ (2, simple) ∷ [];
  ban_manager = new_ban_manager;
  ban_epoch = 0;
  last_check_tm = pos 0;
  ban_precedence = 10;
  unban_max_count = 20;
  queue = ticket 3 1000 ∷ [];
  observed = none;
  deleted = none;
  reloading = none;
  calls = [];
}

abbrev two_banned : Actions ℕ ℕ
two_banned = left_by (check_tickets flaky (pos 1000) (ticket 1 1000 ∷ ticket 2 1000 ∷ []) 0 [] idle)

abbrev one_removed : Actions ℕ ℕ
one_removed = (remove_banned flaky (λ id. none) true false 1 1 two_banned).1

-- Both actions are told of both bans, and of the unban.
five_calls : map (λ c. c.0) one_removed.calls ≡ 2 ∷ 1 ∷ 2 ∷ 1 ∷ 2 ∷ 1 ∷ []
unfolding run
five_calls = refl

told-Reaches_example : banned_by 1 2 one_removed.calls ≡ contains 2 one_removed.ban_manager.ban_list
unfolding run
told-Reaches_example =
    told-Reaches flaky 1 2 idle one_removed (simple, refl, refl, refl) (refl, (refl, tt)) refl refl
      (goes idle two_banned one_removed
        (goes idle idle two_banned (stays idle)
          (adds (pos 1000) (ticket 1 1000 ∷ ticket 2 1000 ∷ []) idle))
        (removes (λ id. none) true false 1 two_banned))

abbrev rounds : List Round
rounds = record { now = pos 1000; pending = true; active = true } ∷ []

abbrev ended : Actions ℕ ℕ
ended = left_by (
    flush_ban flaky false none
      (thread_rounds flaky rounds (0, call_all flaky (λ a. false) start idle.actions idle)).1)

idle-InStep : InStep 1 idle
unfolding run
idle-InStep = record {
  plain = (simple, refl, refl, refl);
  unique = (refl, (refl, tt));
  distinct = tt;
  owned = tt;
  told = λ id. refl;
}

one_flushed :
    flush_ban flaky false none
      (thread_rounds flaky rounds (0, call_all flaky (λ a. false) start idle.actions idle)).1
    ≡ returned 1 ended
unfolding run
one_flushed = refl

run_thread_repeals_example : banned_by 1 3 (run_thread flaky rounds idle).calls ≡ false
run_thread_repeals_example =
    run_thread_repeals flaky 1 rounds idle ended 1 3 idle-InStep one_flushed

-- In this reload only the first action is named again.
abbrev named_again : Dict ℕ (List (String × String))
named_again = (1, []) ∷ []

abbrev reloading_one : Actions ℕ ℕ
reloading_one = record idle { reloading = some named_again }

abbrev reloaded_one : Actions ℕ ℕ
reloaded_one = left_by (end_reload flaky reloading_one)

one_reloaded : end_reload flaky reloading_one ≡ returned tt reloaded_one
unfolding run end_reload reload_each remove_obsolete stop_actions stop_each
one_reloaded = refl

end_reload_leaves_example :
    ((n : ℕ)
      → contains n reloaded_one.actions
        ≡ (if contains n named_again then contains n reloading_one.actions else false))
    × (reloaded_one.reloading ≡ none)
unfolding ℕ_discrete
end_reload_leaves_example =
    end_reload_leaves flaky named_again reloading_one reloaded_one (refl, (refl, tt)) refl
      one_reloaded
