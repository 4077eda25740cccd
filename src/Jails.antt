-- ===== src/Jails.antt =====
-- `Jails` of fail2ban/server/jails.py: the jails by name. The lock makes each operation one step;
-- `new_jail` makes a jail from a name and a backend, and may fail.
pub mod Calls
use fail2ban.Common.{ℕ, Bool, true, false, Option, none, some, List, [], ◌∷◌, if◌then◌else◌, length}
use fail2ban.Common.Dict.{Key, Dict, lookup, contains, insert, erase, keys}

-- What an operation returns: a value, or one of the exceptions
pub data Result {ℓ} (A : Type ℓ) : Type ℓ where
  returned : A → Result A
  duplicate_jail unknown_jail jail_failed : Result A

module _ {N J : Type 0} ⦃key : Key N⦄ where
  -- `add`
  unfoldable pub add : (N → Option J) → N → Dict N J → Result (Dict N J)
  add new_jail name jails =
      if contains name jails
      then duplicate_jail
      else elim (new_jail name) [ none ↦ jail_failed | some j ↦ returned (insert name j jails) ]

  unfoldable pub exists : N → Dict N J → Bool
  exists name jails = contains name jails

  -- `__getitem__`
  unfoldable pub get_jail : N → Dict N J → Result J
  get_jail name jails = elim (lookup name jails) [ none ↦ unknown_jail | some j ↦ returned j ]

  -- `__delitem__`
  unfoldable pub del_jail : N → Dict N J → Result (Dict N J)
  del_jail name jails = if contains name jails then returned (erase name jails) else unknown_jail

module _ {N J : Type 0} where
  -- `__len__`
  unfoldable pub count_jails : Dict N J → ℕ
  count_jails jails = length jails

  -- `__iter__`
  unfoldable pub jail_names : Dict N J → List N
  jail_names jails = keys jails
