-- ===== src/Tests/CacheTests.antt =====
-- The theorems about the cache and the texts of durations at concrete inputs.
use fail2ban.Common.{
  ℕ, ◌+◌, ◌≤◌, ◌≡◌, refl, arith, some, none, List, length, [], ◌∷◌, ltb, ◌*◌, if◌then◌else◌,
}
use fail2ban.Samples.{nat_key, ℕ_discrete}
use fail2ban.Cache.{Cache, get, set}
use fail2ban.Cache.Evict.{
  calls, calls-IsWithin, IsWithin, Call, set_call, get_call, options_call, unset_call,
}
use fail2ban.Cache.Reads.{get-set}
use fail2ban.MyTime.{seconds_to_str}
use fail2ban.MyTime.Accuracy.{seconds_to_str_accuracy, shown_seconds}

-- A full cache of two entries.
abbrev full : Cache ℕ ℕ
full = record {
  entries =
      (1, record { value = 10; expires = 100 }) ∷ (2, record { value = 20; expires = 110 }) ∷ [];
  max_count = 2;
  max_time = 60;
}

run : Unit {0}
unfolding get set ℕ_discrete
run = tt

abbrev some_calls : List (Call ℕ ℕ)
some_calls = set_call 70 3 30 ∷ get_call 90 2 ∷ options_call 1 60 ∷ unset_call 3 ∷ []

calls-IsWithin_example :
    IsWithin 2 (calls some_calls full)
    × (length (set 95 3 31 (calls some_calls full)).entries ≤ (calls some_calls full).max_count)
unfolding run
calls-IsWithin_example =
    calls-IsWithin 2 some_calls full 95 3 31 (tt, (tt, ((omega arith, omega arith), (tt, tt))))
      (record {
        positive = omega arith;
        limited = omega arith;
        distinct = (refl, (refl, tt));
        small = omega arith;
      })

get-set_example :
    (get 100 3 (set 70 3 30 full)).0 ≡ (if ltb 100 (70 + full.max_time) then some 30 else none)
get-set_example = get-set 70 100 3 30 full

seconds_to_str_accuracy_example :
    (2 * shown_seconds (seconds_to_str 3664) ≤ 2 * 3664 + 10)
    × (2 * 3664 ≤ 2 * shown_seconds (seconds_to_str 3664) + 110)
seconds_to_str_accuracy_example = seconds_to_str_accuracy 3664
