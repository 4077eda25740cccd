-- ===== src/Tests/ServerTests.antt =====
-- The theorems about reloads at concrete inputs.
use fail2ban.Common.{ℕ, ◌≡◌, refl, true, false, not, Option, some, [], ◌∷◌, if◌then◌else◌}
use fail2ban.Common.Dict.{Dict, contains}
use fail2ban.Samples.{nat_key, ℕ_discrete}
use fail2ban.Server.{Server, ServerJail, done, ReloadOptions, and_then, start_jail, end_reload}
use fail2ban.Server.Reload.{reload_start}
use fail2ban.Server.Cycle.{reload_all, reload_all_jails}

abbrev living : ServerJail ℕ
living = record { backend = 0; alive = true; idle = false }

abbrev new_jail : ℕ → ℕ → Option (ServerJail ℕ)
new_jail name backend = some (record { backend = backend; alive = false; idle = false })

abbrev two_jails : Server ℕ ℕ
two_jails = record {
  jails = (1, living) ∷ (2, living) ∷ [];
  has_db = true;
  reload_state = [];
  events = [];
}

abbrev plain : ReloadOptions
plain = record { if_exists = false; unban = false; restart = false }

-- Jail 2 stays with another backend, and jail 3 is new.
abbrev new_config : Dict ℕ ℕ
new_config = (2, 5) ∷ (3, 0) ∷ []

reload_all_jails_example :
    (s' : Server ℕ ℕ) × (reload_all new_jail plain new_config two_jails ≡ done s')
    × ((n : ℕ) → contains n s'.jails ≡ contains n new_config)
    × (s'.reload_state ≡ [])
unfolding ℕ_discrete
reload_all_jails_example =
    reload_all_jails new_jail (λ n b. (record { backend = b; alive = false; idle = false }, refl))
      plain new_config two_jails (refl, (refl, tt)) (refl, (refl, tt)) refl refl (refl, (refl, tt))

-- A jail that is not alive while it is to be reloaded
abbrev one_dead : Server ℕ ℕ
one_dead = record {
  jails = (1, record living { alive = false }) ∷ [];
  has_db = true;
  reload_state = (1, false) ∷ [];
  events = [];
}

reload_start_example :
    (s' : Server ℕ ℕ) × (and_then (start_jail 1 one_dead) end_reload ≡ done s')
    × (contains 1 s'.jails ≡ (if false then true else not (contains 1 one_dead.reload_state)))
unfolding ℕ_discrete
reload_start_example =
    reload_start 1 (record living { alive = false }) one_dead (refl, tt) (refl, tt) refl
