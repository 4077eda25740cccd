-- ===== src/Tests/JailTests.antt =====
-- The theorems about jails and growing ban times at concrete inputs.
use fail2ban.Common.{ℕ, ◌+◌, Option, some, [], ◌∷◌, true}
use fail2ban.Common.Dict.{Dict}
use fail2ban.Samples.{nat_key, ℕ_discrete}
use fail2ban.BanTime.{BanTimeExtra}
use fail2ban.Jails.{get_jail}

abbrev week_at_most : BanTimeExtra
week_at_most = record { increment = true; factor = 1; multipliers = []; max_time = some 604800 }

-- A jail is its number.
abbrev make : ℕ → Option ℕ
make name = some (name + 100)

abbrev two_jails : Dict ℕ ℕ
two_jails = (1, 101) ∷ (2, 102) ∷ []

run : Unit {0}
unfolding get_jail ℕ_discrete
run = tt
