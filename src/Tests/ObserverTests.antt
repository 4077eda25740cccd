-- ===== src/Tests/ObserverTests.antt =====
-- The theorems about the observer at concrete inputs.
use fail2ban.Common.{ℕ, ◌+◌, ◌-◌, refl, arith, some, none, [], ◌∷◌, true, false, ◌^◌}
use fail2ban.Common.Int.{pos, ◌≤ℤ◌}
use fail2ban.Samples.{nat_key, ℕ_discrete, failures, later_ticket, ticket}
use fail2ban.Ticket.{get_end_of_ban_time, adjust_time, text}
use fail2ban.FailManager.Keys.{IsValid}
use fail2ban.Filter.{Filter}
use fail2ban.BanTime.{BanTimeExtra, BanRow, smaller}
use fail2ban.Observer.{failure_found, ban_found}
use fail2ban.Observer.Failures.{Recounted, failure_found_counts}
use fail2ban.Observer.Bans.{Prolongs, ban_found_ends}

abbrev growing : BanTimeExtra
growing = record { increment = true; factor = 1; multipliers = []; max_time = none }

-- Three bans, the last one at 100
abbrev row : BanRow
row = record { ban_count = 3; time_of_ban = pos 100; last_ban_time = pos 600 }

abbrev watched : Filter ℕ
watched = record {
  fail_manager = failures;
  queue = [];
  next_svc_time = pos 500;
  errors = 0;
  idle = false;
  proc_lines = 7;
  check_find_time = true;
  observed = some [];
  next_oid = 100;
}

failures-IsValid : IsValid failures
unfolding ℕ_discrete
failures-IsValid = record {
  distinct = (refl, (refl, (refl, tt)));
  owned = ((refl, omega arith), ((refl, omega arith), ((refl, omega arith), tt)));
}

failure_found_counts_example :
    Recounted 1 watched
      (failure_found (pos 1100) true growing (some (row ∷ [])) (later_ticket 1 1100) watched)
      ((adjust_time (pos 1100) 600 (ticket 1 1000)).retry + (smaller (2 ^ 2 + 1) 3 - 1))
unfolding ℕ_discrete
failure_found_counts_example =
    failure_found_counts (pos 1100) growing row [] 2 (later_ticket 1 1100) (ticket 1 1000)
      (text "line" ∷ []) watched refl failures-IsValid (omega arith) refl refl (omega arith) refl
      (omega arith) (omega arith) (omega arith)

ban_found_ends_example :
    let r = ban_found (pos 1100) true growing (some (row ∷ [])) (ticket 1 1000) (pos 600) in
    (get_end_of_ban_time (ticket 1 1000) (pos 600) ≤ℤ get_end_of_ban_time r.ticket (pos 600))
    × Prolongs 600 (ticket 1 1000) r
ban_found_ends_example =
    ban_found_ends (pos 1100) true growing (some (row ∷ [])) (ticket 1 1000) 600 refl refl refl
