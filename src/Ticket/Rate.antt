-- ===== src/Ticket/Rate.antt =====
-- `FailTicket.adjustTime` of fail2ban/server/ticket.py: the window of counted failures.
use fail2ban.Common.{ℕ, ◌≡◌, inl, inr, arith, Bool-cases}
use fail2ban.Common.Int.{ℤ, pos, ◌-ℤ◌, ◌≤ℤ◌, ◌<ℤ◌, ltb_ℤ, -ℤ_parts}
use fail2ban.Ticket.{Ticket, adjust_time}

-- When the time of a ticket moves on, its first failure lies within the find time before it,
-- and the identity of the ticket is kept.
pub adjust_time_window :
    {K : Type 0} (time : ℤ) (max_time : ℕ) (t : Ticket K)
    → t.first_time ≤ℤ t.time
    → t.time <ℤ time
    → let t' = adjust_time time max_time t in
      (t'.time ≡ time)
      × (time -ℤ pos max_time ≤ℤ t'.first_time)
      × (t'.first_time ≤ℤ time)
      × (t'.id ≡ t.id)
unfolding adjust_time
adjust_time_window time max_time t ordered later =
    elim (Bool-cases (ltb_ℤ t.first_time (time -ℤ pos max_time))) [
      | inl beyond ↦ ground (arith, -ℤ_parts time (pos max_time), -ℤ_parts time t.first_time)
      | inr within ↦ ground (arith, -ℤ_parts time (pos max_time))
    ]
