-- ===== src/IpAddr.antt =====
-- IP addresses, networks and sets of them: `IPAddr` and `IPAddrSet` of fail2ban/server/ipdns.py.
-- `inet_pton` of the C library and the DNS look-up are parameters. The cache of `__new__`, which
-- returns an equal object, and the texts of addresses are left out.
pub mod Network
pub mod Mask
pub mod Parse
pub mod Set
use Prim.Native.Nat.{bit_or, bit_xor}
use Prim.Native.String.{String}
use text.Mathlib.Text.{◌==◌ as str_eq}
unfoldable pub use native.Mathlib.Decide.{ℕ_discrete}
use fail2ban.Common.{
  ℕ, zero, suc, ◌+◌, ◌-◌, ◌*◌, ◌/◌, ◌%◌, ◌^◌, Bool, true, false, not, ◌&&◌, ◌||◌, Option, none,
  some, List, [], ◌∷◌, ltb, ◌==◌, if◌then◌else◌, any,
}
use fail2ban.Common.Dict.{Key, Dict, lookup, insert}

-- `_family`: AF_UNSPEC of a text that is no address, AF_INET, AF_INET6, and CIDR_RAW
pub data Family : Type 0 where
  unspec inet inet6 raw_id : Family

pub record IpAddr : Type 0 where
  pub family : Family
  pub addr : ℕ
  pub plen : ℕ
  pub raw : String

-- The argument `cidr`: CIDR_RAW, CIDR_UNSPEC, FAM_IPv4 and FAM_IPv6, or a prefix length
pub data Cidr : Type 0 where
  cidr_raw cidr_unspec fam_inet fam_inet6 : Cidr
  prefix : ℕ → Cidr

abbrev pub same_family : Family → Family → Bool
same_family unspec unspec = true
same_family inet inet = true
same_family inet6 inet6 = true
same_family raw_id raw_id = true
same_family _ _ = false

-- `addr & ~(ones >> plen)` in an address of `width` bits: the last bits are cleared; a prefix that
-- is longer than the address shifts everything out of the mask and clears nothing.
unfoldable pub mask_out : ℕ → ℕ → ℕ → ℕ
mask_out width plen addr = 2 ^ (width - plen) * (addr / 2 ^ (width - plen))

-- `isValid`, and `isSingle`: a plain address, no text and no subnet
unfoldable pub is_valid : IpAddr → Bool
is_valid ip = elim ip.family [ unspec ↦ false | inet ↦ true | inet6 ↦ true | raw_id ↦ true ]

unfoldable pub is_single : IpAddr → Bool
is_single ip = elim ip.family [
  | unspec ↦ false
  | inet ↦ ip.plen == 32
  | inet6 ↦ ip.plen == 128
  | raw_id ↦ false
]

-- `__eq__` of two addresses
unfoldable pub addr_eq : IpAddr → IpAddr → Bool
addr_eq a b =
    if same_family a.family b.family
    then elim a.family [
      | unspec ↦ str_eq a.raw b.raw
      | inet ↦ (a.addr == b.addr) && (a.plen == b.plen)
      | inet6 ↦ (a.addr == b.addr) && (a.plen == b.plen)
      | raw_id ↦ (a.addr == b.addr) && (a.plen == b.plen)
    ]
    else false

-- Membership in a Python set: equal, with equal hashes. The hash is that of the text of an address,
-- which for a raw id is the id itself.
unfoldable pub hash_eq : IpAddr → IpAddr → Bool
unfolding addr_eq
hash_eq a b = elim a.family [
  | unspec ↦ addr_eq a b
  | inet ↦ addr_eq a b
  | inet6 ↦ addr_eq a b
  | raw_id ↦ addr_eq a b && str_eq a.raw b.raw
]

-- The end of `isInNet`, for two addresses.
unfoldable pub in_prefix : IpAddr → IpAddr → Bool
unfolding mask_out
in_prefix ip net =
    if same_family ip.family net.family
    then elim ip.family [
      | unspec ↦ false
      | inet ↦ mask_out 32 net.plen ip.addr == net.addr
      | inet6 ↦ mask_out 128 net.plen ip.addr == net.addr
      | raw_id ↦ false
    ]
    else false

instance abbrev pub addr_key : Key ℕ
addr_key = record { same = ℕ_discrete }

-- The loop of `__getMaskMap`, from bit `i` on, with the bits below `i` set in `m`.
unfoldable pub mask_map_from : ℕ → ℕ → ℕ → Dict ℕ ℕ → Dict ℕ ℕ
mask_map_from zero i m mmap = mmap
mask_map_from (suc rounds) i m mmap =
    let m' = bit_or m (2 ^ i) in
    let mmap' = if ltb i 32 then insert (bit_xor m' (2 ^ 32 - 1)) (32 - 1 - i) mmap else mmap in
    mask_map_from rounds (i + 1) m' (insert (bit_xor m' (2 ^ 128 - 1)) (128 - 1 - i) mmap')

-- `MAP_ADDR2MASKPLEN`
unfoldable pub mask_map : Dict ℕ ℕ
unfolding mask_map_from
mask_map = mask_map_from 128 0 0 ((2 ^ 128 - 1, 128) ∷ (2 ^ 32 - 1, 32) ∷ (0, 0) ∷ [])

-- `maskplen`; `none` is the `ValueError`.
unfoldable pub mask_plen : IpAddr → Option ℕ
mask_plen ip = lookup ip.addr mask_map

-- `IP6_4COMPAT`, the network ::ffff:0:0/96
abbrev pub ip6_4compat : IpAddr
ip6_4compat = record { family = inet6; addr = 0xffff * 2 ^ 32; plen = 96; raw = "::ffff:0:0" }

-- A text or a raw id that is no address.
abbrev pub no_address : Family → String → IpAddr
no_address family raw = record { family = family; addr = 0; plen = 0; raw = raw }

-- A text that `inet_pton` takes as an IPv4 address
unfoldable pub init_inet : String → Cidr → ℕ → IpAddr
init_inet s (prefix n) a = record { family = inet; addr = mask_out 32 n a; plen = n; raw = s }
init_inet s _ a = record { family = inet; addr = a; plen = 32; raw = s }

-- A text that it takes as an IPv6 address
unfoldable pub init_inet6 : String → Cidr → ℕ → IpAddr
unfolding in_prefix
init_inet6 s (prefix n) a = record { family = inet6; addr = mask_out 128 n a; plen = n; raw = s }
init_inet6 s _ a =
    let ip : IpAddr = record { family = inet6; addr = a; plen = 128; raw = s } in
    if in_prefix ip ip6_4compat
    then record { family = inet; addr = a % 2 ^ 32; plen = 32; raw = s }
    else ip

module _ (pton : String → Option ℕ) (pton6 : String → Option ℕ) where
  -- `__init`: the families are tried in turn.
  unfoldable pub init_addr : String → Cidr → IpAddr
  unfolding init_inet init_inet6
  init_addr s cidr_raw = no_address raw_id s
  init_addr s fam_inet = elim (pton s) [
    | some a ↦ init_inet s fam_inet a
    | none ↦ no_address unspec s
  ]
  init_addr s fam_inet6 = elim (pton6 s) [
    | some a ↦ init_inet6 s fam_inet6 a
    | none ↦ no_address unspec s
  ]
  init_addr s cidr = elim (pton s) [
    | some a ↦ init_inet s cidr a
    | none ↦ elim (pton6 s) [ some a ↦ init_inet6 s cidr a | none ↦ no_address unspec s ]
  ]

module _ (dns_to_ip : String → List IpAddr) where
  -- `isInNet` for a network that is an address or a host name
  unfoldable pub is_in_net : IpAddr → IpAddr → Bool
  unfolding is_valid hash_eq in_prefix
  is_in_net ip net =
      if not (is_valid net) && not (str_eq net.raw "")
      then any (hash_eq ip) (dns_to_ip net.raw)
      else in_prefix ip net

  -- `net.contains(ip)`
  unfoldable pub contains_ip : IpAddr → IpAddr → Bool
  unfolding is_in_net addr_eq
  contains_ip net ip = addr_eq ip net || is_in_net ip net

  -- `any(n.contains(ip) for n in self)`
  unfoldable pub any_contains : List IpAddr → IpAddr → Bool
  unfolding contains_ip
  any_contains nets ip = any (λ n. contains_ip n ip) nets

-- `IPAddrSet`; the members of the set in some order
pub record IpAddrSet : Type 0 where
  pub members : List IpAddr
  pub has_sub_net : ℕ

-- `set.__contains__`
unfoldable pub in_members : IpAddr → List IpAddr → Bool
unfolding hash_eq
in_members ip ips = any (hash_eq ip) ips

-- `set.add`
unfoldable pub add_member : IpAddr → List IpAddr → List IpAddr
unfolding in_members
add_member ip ips = if in_members ip ips then ips else ip ∷ ips

-- The flag as a number, 1 for what is no single address.
unfoldable pub sub_net : IpAddr → ℕ
unfolding is_single
sub_net ip = if is_single ip then 0 else 1

-- The loop of `_list2set`
unfoldable pub list_to_set : List IpAddr → IpAddrSet → IpAddrSet
unfolding add_member sub_net
list_to_set [] s = s
list_to_set (ip ∷ ips) s =
    list_to_set ips
      record { members = add_member ip s.members; has_sub_net = s.has_sub_net + sub_net ip }

abbrev pub empty_set : IpAddrSet
empty_set = record { members = []; has_sub_net = 0 }

-- `__init__`, and `set`, which replaces all members
unfoldable pub new_set : List IpAddr → IpAddrSet
unfolding list_to_set
new_set ips = list_to_set ips empty_set

-- `add`
unfoldable pub set_add : IpAddr → IpAddrSet → IpAddrSet
unfolding add_member sub_net
set_add ip s = record {
  members = add_member ip s.members;
  has_sub_net = bit_or s.has_sub_net (sub_net ip);
}

module _ (dns_to_ip : String → List IpAddr) where
  -- `__contains__`
  unfoldable pub set_contains : IpAddr → IpAddrSet → Bool
  unfolding in_members any_contains
  set_contains ip s =
      in_members ip s.members || (not (s.has_sub_net == 0) && any_contains dns_to_ip s.members ip)
