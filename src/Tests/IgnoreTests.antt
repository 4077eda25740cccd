-- ===== src/Tests/IgnoreTests.antt =====
-- The theorems about the ignore list at concrete inputs.
use Prim.Native.String.{String}
use fail2ban.Common.{
  ℕ, ◌+◌, ◌*◌, ◌^◌, ◌≡◌, refl, true, some, none, List, [], ◌∷◌, if◌then◌else◌, ◌||◌,
}
use fail2ban.IpAddr.{IpAddr, inet, empty_set, addr_eq, hash_eq, in_members, is_single, is_in_net}
use fail2ban.Ignore.{
  IgnoreRules, ignore_addr, ignore_file, addr_entry, add_ignore_ip, put_ignore_ip,
  in_ignore_ip_list, in_ignore_list,
}
use fail2ban.Ignore.Entries.{add_after_file_fails, add_ignore_ip_covers}

abbrev ip4 : ℕ → ℕ → IpAddr
ip4 a p = record { family = inet; addr = a; plen = p; raw = "ip" }

abbrev rules : IgnoreRules
rules = record {
  ignore_self = true;
  ip_set = ip4 7 32 ∷ [];
  ip_list = ignore_addr (ip4 0 8) ∷ [];
  command = none;
}

abbrev with_file : IgnoreRules
with_file = record rules { ip_list = ignore_addr (ip4 0 8) ∷ ignore_file empty_set ∷ [] }

abbrev no_dns : String → List IpAddr
no_dns s = []

run : Unit {0}
unfolding in_members in_ignore_list addr_eq hash_eq
run = tt

add_after_file_fails_example : add_ignore_ip (addr_entry (ip4 9 32)) with_file ≡ none
unfolding run
add_after_file_fails_example =
    add_after_file_fails (ip4 9 32) (ignore_addr (ip4 0 8) ∷ []) [] empty_set with_file refl refl
      refl

add_ignore_ip_covers_example :
    let ip = ip4 (10 * 2 ^ 24) 8 in
    let other = ip4 (10 * 2 ^ 24 + 3) 32 in
    (add_ignore_ip (addr_entry ip) rules ≡ some (put_ignore_ip ip rules))
    × (in_ignore_ip_list no_dns empty_set (put_ignore_ip ip rules) other ≡ (
        in_ignore_ip_list no_dns empty_set rules other
        || (if is_single ip then hash_eq other ip else is_in_net no_dns other ip)))
unfolding run
add_ignore_ip_covers_example =
    add_ignore_ip_covers no_dns empty_set (ip4 (10 * 2 ^ 24) 8) (ip4 (10 * 2 ^ 24 + 3) 32) rules
      refl refl
