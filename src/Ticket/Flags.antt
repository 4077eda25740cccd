-- ===== src/Ticket/Flags.antt =====
-- The flag bits of a ticket, `restored` and `banned` of fail2ban/server/ticket.py.
use fail2ban.Common.{◌≡◌, Bool, true, false, arith}
use fail2ban.Ticket.{Ticket, restored, set_restored, banned, set_banned}

-- Writing one of the two flags makes it read as written and leaves the other as it was.
pub flags_independent :
    {K : Type 0} (b : Bool) (t : Ticket K)
    → (restored (set_restored b t) ≡ b)
      × (banned (set_restored b t) ≡ banned t)
      × (banned (set_banned b t) ≡ b)
      × (restored (set_banned b t) ≡ restored t)
unfolding restored set_restored banned set_banned
flags_independent true t = (ground arith, ground arith, ground arith, ground arith)
flags_independent false t = (ground arith, ground arith, ground arith, ground arith)
