-- ===== src/Tests/DatabaseTests.antt =====
-- The theorems about the tickets of the database at concrete inputs.
use fail2ban.Common.{ℕ, ◌≡◌, refl, none, some, List, [], ◌∷◌, All, map, arith}
use fail2ban.Common.Int.{ℤ, pos, negsuc, ◌+ℤ◌, ◌≤ℤ◌, ◌<ℤ◌}
use fail2ban.Samples.{nat_key}
use fail2ban.Ticket.{Ticket, text}
use fail2ban.Database.{BanRow, CurrentRow, newest, get_bans_merged, get_current_bans}
use fail2ban.Database.Merged.{view, get_bans_merged_group}
use fail2ban.Database.Current.{get_current_bans_last}

-- Two bans of the id 1, the later one first, and one of the id 2
abbrev late_ban : BanRow ℕ
late_ban = record {
  id = 1;
  time = pos 900;
  matches = some (text "c" ∷ text "d" ∷ []);
  failures = some 5;
}

abbrev early_ban : BanRow ℕ
early_ban = record {
  id = 1;
  time = pos 300;
  matches = some (text "a" ∷ text "b" ∷ []);
  failures = none;
}

abbrev other_ban : BanRow ℕ
other_ban = record { id = 2; time = pos 500; matches = none; failures = some 3 }

get_bans_merged_group_example :
    map view (get_bans_merged 3 (pos 1000) (late_ban ∷ early_ban ∷ other_ban ∷ []))
    ≡ record {
      id = 1;
      time = pos 300;
      matches = some (newest 3 (text "a" ∷ text "b" ∷ text "c" ∷ text "d" ∷ []));
      failures = 6;
    }
      ∷ map view (get_bans_merged 3 (pos 1000) (other_ban ∷ []))
get_bans_merged_group_example =
    get_bans_merged_group 3 (pos 1000) late_ban (early_ban ∷ []) (other_ban ∷ []) (refl, tt)
      (λ x. absurd (omega (arith, x)))

-- A permanent ban, and one that was longer
abbrev current_rows : List (CurrentRow ℕ)
current_rows =
    record {
      id = 1;
      time = pos 900;
      ban_time = negsuc 0;
      ban_count = 2;
      extra = record { matches = none; failures = some 5 };
    }
    ∷ record {
      id = 2;
      time = pos 100;
      ban_time = pos 6000;
      ban_count = 1;
      extra = record { matches = none; failures = none };
    }
    ∷ []

get_current_bans_last_example :
    All
      (λ (t : Ticket ℕ).
        (b : ℤ) × (t.ban_time ≡ some b) × (b ≤ℤ pos 600) × (pos 1000 <ℤ (t.time +ℤ b)))
      (get_current_bans 10 (pos 1000) (pos 1000) none (some (pos 600)) current_rows)
get_current_bans_last_example =
    get_current_bans_last 10 (pos 1000) (pos 1000) (pos 600) none current_rows refl
      (refl, (refl, tt))
