-- ===== src/Ticket/BanEnd.antt =====
-- The end of a ban, `getEndOfBanTime` and `isTimedOut` of fail2ban/server/ticket.py.
use fail2ban.Common.{◌≡◌, arith}
use fail2ban.Common.Int.{ℤ, ◌≤ℤ◌, ltb_ℤ}
use fail2ban.Ticket.{Ticket, max_ticket_time, get_end_of_ban_time, is_timed_out}

-- Up to the latest time of a ticket, a ticket is timed out exactly when its end of ban is past; a
-- permanent one never is.
pub is_timed_out-get_end_of_ban_time :
    {K : Type 0} (t : Ticket K) (now dflt : ℤ)
    → now ≤ℤ max_ticket_time
    → is_timed_out t now dflt ≡ ltb_ℤ (get_end_of_ban_time t dflt) now
unfolding is_timed_out get_end_of_ban_time
is_timed_out-get_end_of_ban_time t now dflt h = ground arith
