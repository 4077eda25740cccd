-- ===== src/Tests/FilterTests.antt =====
-- The theorems about the flow of a filter at concrete inputs.
use fail2ban.Filter.Dates.{
  LineDates, LineParts, DatedLine, no_match, time_match, process_text, find_date, without_date,
  recent_date, recent_of, last_parts, limit_date, apply_limit, limit_of, is_weird,
}
use fail2ban.Filter.Dating.{IsNear, process_text-IsNear}
use fail2ban.Filter.Follow.{undated_line_follows}
use fail2ban.Common.{ℕ, ◌≡◌, refl, arith, some, none, [], ◌∷◌, ◌++◌, ltb, leb, keep, true, false}
use fail2ban.Common.Int.{ℤ, pos, ◌-ℤ◌, ◌+ℤ◌}
use fail2ban.Common.Dict.{lookup, values}
use fail2ban.Samples.{nat_key, ℕ_discrete, failures, later_ticket, ticket}
use fail2ban.Ticket.{Ticket, is_ban_ticket, inc, get_matches, adjust_time}
use fail2ban.FailManager.{FailManager, add_failure}
use fail2ban.FailManager.Keys.{IsValid}
use fail2ban.Filter.{Filter, ban_loop, count_attempt}
use fail2ban.Filter.Drain.{ban_loop_moves}
use fail2ban.Filter.Attempt.{count_attempt_bans}

abbrev filter_of : FailManager ℕ → Filter ℕ
filter_of m = record {
  fail_manager = m;
  queue = ticket 9 700 ∷ [];
  next_svc_time = pos 500;
  errors = 98;
  idle = false;
  proc_lines = 7;
  check_find_time = true;
  observed = some [];
  next_oid = 100;
}

run : Unit {0}
unfolding add_failure is_ban_ticket ℕ_discrete inc get_matches adjust_time ◌-ℤ◌
run = tt

failures-IsValid : IsValid failures
unfolding ℕ_discrete
failures-IsValid = record {
  distinct = (refl, (refl, (refl, tt)));
  owned = ((refl, omega arith), ((refl, omega arith), ((refl, omega arith), tt)));
}

ban_loop_moves_example : ban_loop 3 (filter_of failures) ≡ record (filter_of failures) {
  queue = (ticket 9 700 ∷ []) ++ values (keep (λ e. leb 3 e.1.retry) failures.fail_list);
  fail_manager = record failures { fail_list = keep (λ e. ltb e.1.retry 3) failures.fail_list };
}
ban_loop_moves_example =
    ban_loop_moves 3 (filter_of failures) failures-IsValid.distinct (omega arith)

-- A list on which the next failure is the last that is allowed.
abbrev strict : FailManager ℕ
strict = record failures { max_retry = 2 }

strict-IsValid : IsValid strict
unfolding ℕ_discrete
strict-IsValid = record { distinct = failures-IsValid.distinct; owned = failures-IsValid.owned }

count_attempt_bans_example :
    let t = later_ticket 1 1100 in
    let r = add_failure strict t 1 false in
    let f' = count_attempt (pos 1100) 1 t (filter_of strict) in
    (g : Ticket ℕ) × (lookup 1 r.0.fail_list ≡ some g)
    × (g.retry ≡ r.1)
    × (f'.queue ≡ (ticket 9 700 ∷ []) ++ (g ∷ []))
    × (lookup 1 f'.fail_manager.fail_list ≡ none)
unfolding run
count_attempt_bans_example =
    count_attempt_bans (pos 1100) 1 (later_ticket 1 1100) (filter_of strict) strict-IsValid
      (omega arith) refl (omega arith)

-- A log in operation, with a last line half a minute ago
abbrev read_before : LineDates ℕ
read_before = record {
  last_time_text = 1;
  last_date = some (pos 970000000);
  check_find_time = true;
  in_operation = true;
  find_time = pos 600000000;
}

-- A time with its text, in a line of other texts
abbrev timed_parts : LineParts ℕ
timed_parts = record { before = 0; time_text = 7; after = 8 }

process_text-IsNear_example :
    (l : DatedLine ℕ) × (d : ℤ) × ((process_text
        (pos 1000000000)
        0
        9
        (time_match timed_parts (some (pos 5000000)))
        read_before).0
      ≡ some l)
    × (l.date ≡ some d)
    × IsNear (pos 1000000000) d
process_text-IsNear_example =
    process_text-IsNear (pos 1000000000) 0 9 (time_match timed_parts (some (pos 5000000)))
      read_before refl refl

run_dates : Unit {0}
unfolding process_text find_date without_date recent_date recent_of last_parts limit_date
    apply_limit limit_of is_weird ◌+ℤ◌ ◌-ℤ◌
run_dates = tt

undated_line_follows_example :
    (let s' =
        (process_text
          (pos 1000000000)
          0
          9
          (time_match timed_parts (some (pos 990000000)))
          read_before).1 in
      (process_text (pos 1010000000) 0 5 no_match s').0
      ≡ some (record {
        parts = record { before = 0; time_text = 7; after = 5 };
        date = some (pos 990000000);
        no_date = true;
      }))
unfolding run_dates
undated_line_follows_example =
    undated_line_follows (pos 1000000000) (pos 1010000000) (pos 990000000) (pos 990000000) 0 9 5
      timed_parts (record { parts = timed_parts; date = some (pos 990000000); no_date = false })
      read_before refl refl (record { given = refl; recent = refl; near = omega arith })
      (omega arith)
