-- ===== src/Tests/AddrTests.antt =====
-- The theorems about addresses at concrete inputs.
use Prim.Native.String.{String}
use text.Mathlib.Text.{◌==◌ as str_eq}
use fail2ban.Common.{
  ◌⊎◌, ℕ, ◌+◌, ◌-◌, ◌*◌, ◌^◌, ◌≤◌, ◌<◌, ◌≡◌, ◌↔◌, refl, true, arith, Option, some, none, List, [],
  ◌∷◌, if◌then◌else◌,
}
use fail2ban.IpAddr.{
  is_single, IpAddr, inet, in_prefix, prefix, init_addr, mask_out, set_contains, any_contains,
}
use fail2ban.IpAddr.{mask_plen}
use fail2ban.IpAddr.Mask.{netmask, mask_plen-netmask}
use fail2ban.IpAddr.Network.{in_prefix_range}
use fail2ban.IpAddr.Set.{set_contains-any_contains, built}
use fail2ban.IpAddr.Parse.{IsMasked, IsBounded, init_addr-IsMasked}

abbrev ip4 : ℕ → ℕ → IpAddr
ip4 a p = record { family = inet; addr = a; plen = p; raw = "ip" }

abbrev ten_net : IpAddr
ten_net = ip4 (10 * 2 ^ 24) 8

abbrev host : IpAddr
host = ip4 (10 * 2 ^ 24 + 258) 32

in_prefix_range_example :
    (in_prefix host ten_net ≡ true)
    ↔ ((ten_net.addr ≤ host.addr) × (host.addr < ten_net.addr + 2 ^ (32 - ten_net.plen)))
unfolding mask_out
in_prefix_range_example = in_prefix_range host ten_net (10 * 2 ^ 24 + 7) refl (omega arith) refl

-- A resolver without names.
abbrev no_dns : String → List IpAddr
no_dns s = []

set_contains-any_contains_example :
    set_contains no_dns host (built (ip4 7 32 ∷ []) (ten_net ∷ []))
    ≡ any_contains no_dns (built (ip4 7 32 ∷ []) (ten_net ∷ [])).members host
unfolding is_single
set_contains-any_contains_example =
    set_contains-any_contains no_dns host (ip4 7 32 ∷ []) (ten_net ∷ []) refl

abbrev pton4 : String → Option ℕ
pton4 s = if str_eq s "10.0.1.2" then some (10 * 2 ^ 24 + 258) else none

abbrev pton6 : String → Option ℕ
pton6 s = if str_eq s "::ffff:10.0.1.2" then some (0xffff * 2 ^ 32 + 10 * 2 ^ 24 + 258) else none

pton4-IsBounded : IsBounded 32 pton4
pton4-IsBounded s a h = ground arith

pton6-IsBounded : IsBounded 128 pton6
pton6-IsBounded s a h = ground arith

init_addr-IsMasked_example : IsMasked (init_addr pton4 pton6 "10.0.1.2" (prefix 8))
init_addr-IsMasked_example =
    init_addr-IsMasked pton4 pton6 "10.0.1.2" (prefix 8) pton4-IsBounded pton6-IsBounded

mask_plen-netmask_example :
    (mask_plen (ip4 0xFFFFFF00 32) ≡ some 24)
    ↔ (((24 ≤ 128) × (0xFFFFFF00 ≡ netmask 128 24)) ⊎ ((24 ≤ 32) × (0xFFFFFF00 ≡ netmask 32 24)))
mask_plen-netmask_example = mask_plen-netmask (ip4 0xFFFFFF00 32) 24
