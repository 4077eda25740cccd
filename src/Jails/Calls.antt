-- ===== src/Jails/Calls.antt =====
-- The errors and effects of the operations of fail2ban/server/jails.py.
use fail2ban.Common.{◌≡◌, ◌≢◌, refl, Option, none, some, arith, ◌∙◌}
use fail2ban.Common.Dict.{
  Key, Dict, lookup, insert, erase, Distinct, lookup-insert_self, lookup-insert_ne, insert-Distinct,
  lookup-erase_self, lookup-erase_ne,
}
use fail2ban.Jails.{returned, duplicate_jail, unknown_jail, add, get_jail, del_jail}

module _ {N J : Type 0} ⦃key : Key N⦄ where
  -- A jail with a new name is added; then it is found under its name, the others are found as before,
  -- adding the name again is refused as a duplicate, and after its deletion the jails are found as
  -- before it was added.
  pub add-get_jail :
      (new_jail : N → Option J) (name other : N) (j : J) (jails : Dict N J)
      → Distinct jails
      → get_jail name jails ≡ unknown_jail
      → new_jail name ≡ some j
      → other ≢ name
      → let added = insert name j jails in
        (add new_jail name jails ≡ returned added)
        × (get_jail name added ≡ returned j)
        × (get_jail other added ≡ get_jail other jails)
        × (add new_jail name added ≡ duplicate_jail)
        × (del_jail name added ≡ returned (erase name added))
        × (get_jail name (erase name added) ≡ unknown_jail)
        × (get_jail other (erase name added) ≡ get_jail other jails)
  unfolding add get_jail del_jail
  add-get_jail new_jail name other j jails distinct unknown made ne =
      let added = insert name j jails in
      let absent : lookup name jails ≡ none = ground arith in
      let found = lookup-insert_self name j jails in
      let gone = lookup-erase_self name added (insert-Distinct name j jails distinct) in
      let same = lookup-insert_ne other name j jails ne in
      let still = lookup-erase_ne other name added ne ∙ same in
      (
        ground arith,
        rw (get_jail, found) refl,
        rw (get_jail, same) refl,
        ground arith,
        ground arith,
        rw (get_jail, gone) refl,
        rw (get_jail, still) refl,
      )
