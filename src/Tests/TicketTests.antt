-- ===== src/Tests/TicketTests.antt =====
-- The theorems about tickets at concrete inputs.
use fail2ban.Common.{◌≡◌, refl}
use fail2ban.Common.Int.{pos, ◌-ℤ◌}
use fail2ban.Samples.{ticket}
use fail2ban.Ticket.{adjust_time, estimate, round_float, doublings, round_ratio}

-- 5 / 2 and 7 / 2, a tie each, go to the even neighbour.
ties : (round_ratio 5 2 ≡ 2) × (round_ratio 7 2 ≡ 4)
unfolding round_ratio
ties = (refl, refl)

-- 14 failures in 800 seconds are 10.5 in 600, which floats take for a little more.
float_estimate : (estimate 14 800 600 ≡ 11) × (estimate 7 1800 600 ≡ 2) × (estimate 0 800 600 ≡ 0)
unfolding estimate round_float doublings round_ratio
float_estimate = (refl, refl, refl)

-- A window of 600 seconds after 1200 since the first failure: 5 failures count for 2.
adjusted : (adjust_time (pos 2200) 600 (record (ticket 1 1000) { retry = 5 })).retry ≡ 2
unfolding adjust_time estimate round_float doublings round_ratio ◌-ℤ◌
adjusted = refl
