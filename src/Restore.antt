-- ===== src/Restore.antt =====
-- `restoreCurrentBans` of fail2ban/server/jail.py: the bans of the database are put into the queue of
-- the jail again. The tickets that the database returns and the answer of the ignore list are
-- arguments.
pub mod Queue
use fail2ban.Common.{Bool, true, false, not, ◌&&◌, Option, none, some, List, [], ◌∷◌, if◌then◌else◌}
use fail2ban.Common.Int.{ℤ, pos, ◌-ℤ◌, ltb_ℤ, leb_ℤ, eqb_ℤ}
use fail2ban.Ticket.{Ticket, permanent, set_restored}
use fail2ban.Filter.{Filter, put_fail_ticket}

-- `forbantime`: the ban time of the jail, or `None` where ban times grow
unfoldable pub for_ban_time : Bool → ℤ → Option ℤ
for_ban_time increment ban_time = if increment then none else some ban_time

-- The ban time from now on
unfoldable pub remaining : ℤ → ℤ → ℤ → ℤ
remaining now time btm =
    if not (eqb_ℤ btm permanent) && ltb_ℤ (pos 0) (now -ℤ time) then btm -ℤ (now -ℤ time) else btm

module _ {K : Type 0} (ignored : Ticket K → Bool) where
  -- Whether a ticket is put into the queue. No ban time at all raises a `TypeError` that is logged.
  unfoldable pub is_restored : ℤ → Option ℤ → Ticket K → Bool
  is_restored now dflt t = if ignored t then false else elim t.ban_time [
    | some btm ↦
        let rest = remaining now t.time btm in
        not (not (eqb_ℤ rest permanent) && leb_ℤ rest (pos 0))
    | none ↦ elim dflt [
      | none ↦ false
      | some btm ↦
          let rest = remaining now t.time btm in
          not (not (eqb_ℤ rest permanent) && leb_ℤ rest (pos 0))
    ]
  ]

  -- The body of the loop
  unfoldable pub restore_ticket : ℤ → Option ℤ → Ticket K → Filter K → Filter K
  restore_ticket now dflt t f =
      let marked = set_restored true t in
      if is_restored now dflt marked then put_fail_ticket marked f else f

  unfoldable pub restore_current_bans : ℤ → Option ℤ → List (Ticket K) → Filter K → Filter K
  restore_current_bans now dflt [] f = f
  restore_current_bans now dflt (t ∷ ts) f =
      restore_current_bans now dflt ts (restore_ticket now dflt t f)
