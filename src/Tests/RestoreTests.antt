-- ===== src/Tests/RestoreTests.antt =====
-- The theorem about restored bans at a concrete input: a ban that ended one second ago.
use fail2ban.Common.{ℕ, ◌≡◌, ◌↔◌, ◌⊎◌, refl, arith, inr, true, false, some, Bool}
use fail2ban.Common.Int.{pos, ◌+ℤ◌, ◌<ℤ◌}
use fail2ban.Samples.{ticket}
use fail2ban.Ticket.{Ticket, permanent}
use fail2ban.Restore.{is_restored}
use fail2ban.Restore.Queue.{is_restored_iff}

abbrev timed : Ticket ℕ
timed = record (ticket 1 1000) { ban_time = some (pos 600) }

abbrev nothing_ignored : Ticket ℕ → Bool
nothing_ignored t = false

is_restored_iff_example : (is_restored nothing_ignored (pos 1601) (some (pos 60)) timed ≡ true) ↔ (
    (pos 600 ≡ permanent)
    ⊎ (pos 1601 <ℤ pos 1000 +ℤ pos 600)
    ⊎ (pos 1601 ≡ (pos 1000 +ℤ pos 600) +ℤ pos 1))
is_restored_iff_example =
    is_restored_iff nothing_ignored (pos 1601) (some (pos 60)) timed (pos 600) refl refl
      (inr (omega arith))
