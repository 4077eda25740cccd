-- ===== src/IpAddr/Set.antt =====
-- `IPAddrSet` of fail2ban/server/ipdns.py: what its flag `hasSubNet` and its direct look-up save.
use Prim.Native.String.{String}
use Prim.Native.Nat.{digits, max, bit_or-bitwise}
use fail2ban.IpAddr.Network.{mask_out_full}
use fail2ban.Common.{
  ◌/◌, ℕ, zero, suc, ◌≤◌, ◌≡◌, refl, sym, ◌∙◌, true, false, arith, List, [], ◌∷◌, All,
  if◌then◌else◌,
}
use fail2ban.IpAddr.{
  IpAddr, in_prefix, is_single, is_valid, hash_eq, addr_eq, contains_ip, is_in_net, any_contains,
  in_members, add_member, sub_net, list_to_set, new_set, set_add, set_contains, IpAddrSet,
  empty_set,
}

-- No flag, no subnet: while the flag is 0, all members are single addresses.
abbrev pub IsFlagged : IpAddrSet → Type 0
IsFlagged s = s.has_sub_net ≡ 0 → All (λ n. is_single n ≡ true) s.members

add_member-All :
    (ip : IpAddr) (ips : List IpAddr)
    → is_single ip ≡ true
    → All (λ n. is_single n ≡ true) ips
    → All (λ n. is_single n ≡ true) (add_member ip ips)
unfolding add_member
add_member-All ip ips h all =
    elim (in_members ip ips) as (λ b. All (λ n. is_single n ≡ true) (if b then ips else ip ∷ ips)) [
      | true ↦ all
      | false ↦ (h, all)
    ]

sub_net-zero : (ip : IpAddr) → sub_net ip ≡ 0 → is_single ip ≡ true
unfolding sub_net
sub_net-zero ip h = ground arith

list_to_set-IsFlagged :
    (ips : List IpAddr) (s : IpAddrSet) → IsFlagged s → IsFlagged (list_to_set ips s)
unfolding list_to_set
list_to_set-IsFlagged [] s h = h
list_to_set-IsFlagged (ip ∷ ips) s h =
    list_to_set-IsFlagged ips _
      (λ z. add_member-All ip s.members (sub_net-zero ip (omega arith)) (h (omega arith)))

-- A single address that another single address contains is equal to it.
contains_single :
    (dns : String → List IpAddr) (n ip : IpAddr)
    → is_single n ≡ true
    → is_single ip ≡ true
    → contains_ip dns n ip ≡ true
    → hash_eq ip n ≡ true
unfolding contains_ip hash_eq is_in_net is_valid addr_eq in_prefix is_single
contains_single dns n ip h g c =
    ground (arith, mask_out_full 32 n.plen ip.addr, mask_out_full 128 n.plen ip.addr)

hash_eq-contains_ip :
    (dns : String → List IpAddr) (n ip : IpAddr) → hash_eq ip n ≡ true → contains_ip dns n ip ≡ true
unfolding contains_ip hash_eq
hash_eq-contains_ip dns n ip h = ground arith

bit_or-zero : (n a b : ℕ) → a ≤ n → digits (λ b. b) max n a b ≡ 0 → (a ≡ 0) × (b ≡ 0)
bit_or-zero zero a b h e = (omega arith, e)
bit_or-zero (suc n) zero b h e = (refl, e)
bit_or-zero (suc n) (suc a) b h e = ground (arith, bit_or-zero n (suc a / 2) (b / 2))

set_add-IsFlagged : (ip : IpAddr) (s : IpAddrSet) → IsFlagged s → IsFlagged (set_add ip s)
unfolding set_add
set_add-IsFlagged ip s h z =
    let parts =
      bit_or-zero s.has_sub_net s.has_sub_net (sub_net ip) (omega arith)
        (sym (λ i. bit_or-bitwise s.has_sub_net (sub_net ip) i) ∙ z) in
    add_member-All ip s.members (sub_net-zero ip parts.1) (h parts.0)

-- The sets that the code makes: `new_set`, then any number of `set_add`.
abbrev pub built : List IpAddr → List IpAddr → IpAddrSet
built first [] = new_set first
built first (ip ∷ added) = set_add ip (built first added)

built-IsFlagged : (first added : List IpAddr) → IsFlagged (built first added)
unfolding new_set
built-IsFlagged first [] = list_to_set-IsFlagged first empty_set (λ _. tt)
built-IsFlagged first (ip ∷ added) =
    set_add-IsFlagged ip (built first added) (built-IsFlagged first added)

module _ (dns : String → List IpAddr) (ip : IpAddr) where
  in_members-any_contains :
      (ips : List IpAddr) → in_members ip ips ≡ true → any_contains dns ips ip ≡ true
  unfolding in_members any_contains
  in_members-any_contains [] h = absurd (cc)
  in_members-any_contains (n ∷ ips) h =
      ground (arith, in_members-any_contains ips, hash_eq-contains_ip dns n ip)

  any_contains-in_members :
      (ips : List IpAddr)
      → is_single ip ≡ true
      → All (λ n. is_single n ≡ true) ips
      → any_contains dns ips ip ≡ true
      → in_members ip ips ≡ true
  unfolding in_members any_contains
  any_contains-in_members [] g all h = absurd (cc)
  any_contains-in_members (n ∷ ips) g all h =
      ground (arith, any_contains-in_members ips g all.1, contains_single dns n ip all.0 g)

  -- A single address is in a set of addresses, networks and host names that was made by the
  -- constructor and additions exactly when some member contains it: the look-up in the hash table
  -- and the flag `hasSubNet`, which skips the walk over the members, change no answer.
  pub set_contains-any_contains :
      (first added : List IpAddr)
      → is_single ip ≡ true
      → set_contains dns ip (built first added) ≡ any_contains dns (built first added).members ip
  unfolding set_contains
  set_contains-any_contains first added g =
      let s = built first added in
      ground (
        arith,
        in_members-any_contains s.members,
        λ (z : s.has_sub_net ≡ 0).
            any_contains-in_members s.members g (built-IsFlagged first added z),
      )
