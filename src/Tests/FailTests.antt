-- ===== src/Tests/FailTests.antt =====
-- The theorems about the failure list at concrete inputs.
use fail2ban.Common.{
  ℕ, ◌≡◌, ◌≤◌, refl, false, none, some, List, [], ◌∷◌, arith, ltb, if◌then◌else◌, keep,
}
use fail2ban.Common.Int.{pos, ◌-ℤ◌, ltb_ℤ}
use fail2ban.Samples.{
  ticket, later_ticket, bare_ticket, failures, bare_failures, nat_key, ℕ_discrete,
}
use fail2ban.Ticket.{Ticket, inc, adjust_time, get_matches, is_ban_ticket}
use fail2ban.FailManager.{FailManager, add_failure, cleanup, to_ban, new_matches, is_same}
use fail2ban.FailManager.Keys.{IsValid, Call, failure, clean, delete, ban, calls, calls-IsValid}
use fail2ban.FailManager.Bans.{to_ban-some}
use fail2ban.Common.Dict.{lookup}
use fail2ban.FailManager.Cleanup.{cleanup-keep}
use fail2ban.FailManager.Attempts.{add_failure_forgets}

run : Unit {0}
unfolding add_failure cleanup to_ban inc adjust_time ◌-ℤ◌ ℕ_discrete get_matches new_matches is_same
    is_ban_ticket
run = tt

-- The second failure of an id counts 2.
second : (add_failure failures (later_ticket 1 1100) 1 false).1 ≡ 2
unfolding run
second = refl

-- After its matches are lost, the third failure counts 1.
forgotten : (add_failure bare_failures (later_ticket 1 1100) 1 false).1 ≡ 1
unfolding run
forgotten = refl

failures-IsValid : IsValid failures
unfolding ℕ_discrete
failures-IsValid = record {
  distinct = (refl, (refl, (refl, tt)));
  owned = ((refl, omega arith), ((refl, omega arith), ((refl, omega arith), tt)));
}

abbrev traffic : List (Call ℕ)
traffic = failure (later_ticket 1 1100) 1 false ∷ ban none ∷ clean (pos 1200) ∷ delete 1 ∷ []

calls-IsValid_example : IsValid (calls traffic failures)
calls-IsValid_example =
    calls-IsValid traffic failures (omega arith, (tt, (tt, (tt, tt)))) failures-IsValid

cleanup-keep_example : cleanup (pos 1200) failures ≡ record failures {
  fail_list = keep (λ e. ltb_ℤ (pos 1200 -ℤ pos failures.max_time) e.1.time) failures.fail_list;
}
cleanup-keep_example = cleanup-keep (pos 1200) failures failures-IsValid.distinct

add_failure_forgets_example :
    let t = later_ticket 1 1100 in
    (add_failure bare_failures t 1 false).1 ≡ (if ltb t.failures 1 then 1 else t.retry)
unfolding run
add_failure_forgets_example =
    add_failure_forgets bare_failures (later_ticket 1 1100) (bare_ticket 1 1000) 1 "new line" []
      refl refl refl (omega arith) refl refl

abbrev banned_three : FailManager ℕ
banned_three = record failures { fail_list = (1, ticket 1 1000) ∷ (2, ticket 2 300) ∷ [] }

abbrev three : Ticket ℕ
three = record (ticket 3 900) { retry = 4 }

to_ban-some_example :
    (lookup 3 failures.fail_list ≡ some three)
    × (failures.max_retry ≤ three.retry)
    × (lookup 3 banned_three.fail_list ≡ none)
    × (lookup 1 banned_three.fail_list ≡ lookup 1 failures.fail_list)
    × (banned_three ≡ record failures { fail_list = banned_three.fail_list })
unfolding run
to_ban-some_example =
    to_ban-some none failures banned_three three 1 failures-IsValid refl (λ x. absurd (cc))
