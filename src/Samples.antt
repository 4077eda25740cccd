-- ===== src/Samples.antt =====
-- Concrete ids, tickets and managers, at which the tests of the other modules run.
use fail2ban.Common.{ℕ, ◌+◌, none, some, [], ◌∷◌}
use fail2ban.Common.Int.{pos, negsuc}
use fail2ban.Common.Dict.{Key}
use fail2ban.Ticket.{Ticket, fail_ticket, text, parts}
use fail2ban.FailManager.{FailManager, new_fail_manager}
use fail2ban.BanManager.{BanManager, new_ban_manager}
unfoldable pub use native.Mathlib.Decide.{ℕ_discrete}

instance abbrev pub nat_key : Key ℕ
nat_key = record { same = ℕ_discrete }

abbrev pub ticket : ℕ → ℕ → Ticket ℕ
ticket id time = record {
  oid = 10 + id;
  ticket_class = fail_ticket;
  id = id;
  flags = 0;
  ban_count = 0;
  ban_time = none;
  time = pos time;
  matches = some (text "line" ∷ []);
  failures = 1;
  first_time = pos time;
  retry = 1;
  ban_epoch = 0;
}

-- The same id in another object, with a line in parts.
abbrev pub later_ticket : ℕ → ℕ → Ticket ℕ
later_ticket id time = record (ticket id time) {
  oid = 20 + id;
  matches = some (parts ("new" ∷ " line" ∷ []) ∷ []);
}

-- A ticket that has lost its matches.
abbrev pub bare_ticket : ℕ → ℕ → Ticket ℕ
bare_ticket id time = record (ticket id time) { matches = none; retry = 2 }

abbrev pub failures : FailManager ℕ
failures = record new_fail_manager {
  fail_list =
      (1, ticket 1 1000) ∷ (2, ticket 2 300) ∷ (3, record (ticket 3 900) { retry = 4 }) ∷ [];
}

abbrev pub bare_failures : FailManager ℕ
bare_failures = record new_fail_manager { fail_list = (1, bare_ticket 1 1000) ∷ [] }

abbrev pub bans : BanManager ℕ
bans = record new_ban_manager {
  ban_list =
      (1, ticket 1 1000)
      ∷ (2, record (ticket 2 300) { ban_time = some (negsuc 0) })
      ∷ (3, ticket 3 400)
      ∷ [];
  next_unban_time = pos 1000;
}
