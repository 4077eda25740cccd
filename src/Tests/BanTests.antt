-- ===== src/Tests/BanTests.antt =====
-- The theorems about the ban list at concrete inputs.
use fail2ban.Common.{ℕ, ◌≡◌, refl, not, some, [], ◌∷◌, arith, keep}
use fail2ban.Common.Int.{pos, negsuc, ◌+ℤ◌, ◌-ℤ◌, ◌≤ℤ◌, ltb_ℤ}
use fail2ban.Common.Dict.{lookup, values}
use fail2ban.Samples.{ticket, later_ticket, bans, nat_key, ℕ_discrete}
use fail2ban.Ticket.{Ticket, get_end_of_ban_time, get_ban_time}
use fail2ban.BanManager.{
  end_of_ban, add_ban_ticket, un_ban_list, flush_ban_list, get_ticket_by_id, set_default_ban_time,
}
use fail2ban.BanManager.Add.{add_ban_ticket_ends}
use fail2ban.BanManager.Unban.{un_ban_list_all}
use fail2ban.BanManager.Schedule.{IsValid, add_ban_ticket-IsValid, un_ban_list-IsValid}

run : Unit {0}
unfolding end_of_ban get_end_of_ban_time get_ban_time add_ban_ticket un_ban_list flush_ban_list
    get_ticket_by_id ◌+ℤ◌ ◌-ℤ◌ ℕ_discrete set_default_ban_time
run = tt

-- At 1001 the ban of the third ticket is over, and the others stay; the next check is at 1600.
third_over : un_ban_list (pos 1001) 20 bans ≡ (
  record bans {
    ban_list = (1, ticket 1 1000) ∷ (2, record (ticket 2 300) { ban_time = some (negsuc 0) }) ∷ [];
    next_unban_time = pos 1600;
  },
  ticket 3 400 ∷ [],
)
unfolding run
third_over = refl

bans-IsValid : IsValid bans
unfolding run
bans-IsValid = record {
  distinct = (refl, (refl, (refl, tt)));
  owned = (refl, (refl, (refl, tt)));
  due = (omega arith, (omega arith, (omega arith, tt)));
}

abbrev late : Ticket ℕ
late = record (later_ticket 1 1300) { ban_time = some (pos 900) }

add_ban_ticket_ends_example :
    (g : Ticket ℕ) × (lookup 1 (add_ban_ticket (pos 1400) late bans).0.ban_list ≡ some g)
    × (end_of_ban bans late ≤ℤ end_of_ban bans g)
unfolding run
add_ban_ticket_ends_example = add_ban_ticket_ends (pos 1400) late bans (omega arith) (omega arith)

un_ban_list_all_example :
    let (m', out) = un_ban_list (pos 1001) 20 bans in
    (out ≡ values (keep (λ e. ltb_ℤ (end_of_ban bans e.1) (pos 1001)) bans.ban_list))
    × (m'.ban_list ≡ keep (λ e. not (ltb_ℤ (end_of_ban bans e.1) (pos 1001))) bans.ban_list)
unfolding run
un_ban_list_all_example =
    un_ban_list_all (pos 1001) 20 bans bans-IsValid.distinct bans-IsValid.due (omega arith)

add_ban_ticket-IsValid_example : IsValid (add_ban_ticket (pos 1400) late bans).0
unfolding run
add_ban_ticket-IsValid_example =
    add_ban_ticket-IsValid (pos 1400) late bans (omega arith) bans-IsValid

un_ban_list-IsValid_example : IsValid (un_ban_list (pos 1001) 20 bans).0
unfolding run
un_ban_list-IsValid_example = un_ban_list-IsValid (pos 1001) 20 bans bans-IsValid
