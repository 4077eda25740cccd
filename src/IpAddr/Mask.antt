-- ===== src/IpAddr/Mask.antt =====
-- `maskplen` of fail2ban/server/ipdns.py: the table of netmasks.
use fail2ban.Common.{
  ℕ, zero, suc, ◌-◌, ◌^◌, ◌≤◌, ◌<◌, ◌≡◌, refl, true, false, arith, Bool, ◌==◌, ◌&&◌, ◌||◌, [], ◌∷◌,
  Option, some, none, leb, ◌↔◌, ◌⊎◌, inl, inr, Bool-cases,
}
use fail2ban.Common.Dict.{Dict, lookup}
use fail2ban.Common.Dict.Entries.{Entries, lookup-Entries}
use fail2ban.IpAddr.{mask_map, mask_plen, IpAddr, addr_key, ℕ_discrete}

-- The netmask of `p` ones in `w` bits.
abbrev pub netmask : ℕ → ℕ → ℕ
netmask w p = 2 ^ w - 2 ^ (w - p)

is_found : ℕ → Option ℕ → Bool
is_found p none = false
is_found p (some q) = p == q

-- The netmasks of fewer than `n` ones are in the table.
are_found : ℕ → ℕ → Bool
are_found w zero = true
are_found w (suc p) = is_found p (lookup (netmask w p) mask_map) && are_found w p

is_found-some : (p : ℕ) (o : Option ℕ) → is_found p o ≡ true → o ≡ some p
unfolding is_found
is_found-some p none h = absurd (cc)
is_found-some p (some q) h = ground arith

are_found-lookup :
    (w n p : ℕ) → p < n → are_found w n ≡ true → lookup (netmask w p) mask_map ≡ some p
unfolding are_found
are_found-lookup w zero p h all = absurd (omega arith)
are_found-lookup w (suc n) p h all = elim (ℕ_discrete p n) [
  | yes e ↦ rw e (is_found-some n (lookup (netmask w n) mask_map) (ground arith))
  | no ne ↦ are_found-lookup w n p (omega arith) (ground arith)
]

inet_found : are_found 32 33 ≡ true
unfolding mask_map ℕ_discrete is_found are_found
inet_found = refl

inet6_found : are_found 128 129 ≡ true
unfolding mask_map ℕ_discrete is_found are_found
inet6_found = refl

is_mask : ℕ → ℕ → Bool
is_mask a p = (leb p 128 && (a == netmask 128 p)) || (leb p 32 && (a == netmask 32 p))

all_masks : Dict ℕ ℕ → Bool
all_masks [] = true
all_masks (e ∷ d) = is_mask e.0 e.1 && all_masks d

all_masks-Entries : (d : Dict ℕ ℕ) → all_masks d ≡ true → Entries (λ a p. is_mask a p ≡ true) d
unfolding all_masks
all_masks-Entries [] h = tt
all_masks-Entries (e ∷ d) h = (ground arith, all_masks-Entries d (ground arith))

map_masks : all_masks mask_map ≡ true
unfolding mask_map ℕ_discrete is_mask all_masks
map_masks = refl

split : (a p w : ℕ) → (leb p w && (a == netmask w p)) ≡ true → (p ≤ w) × (a ≡ netmask w p)
split a p w h = ground arith

listed :
    (a p : ℕ)
    → is_mask a p ≡ true
    → ((p ≤ 128) × (a ≡ netmask 128 p)) ⊎ ((p ≤ 32) × (a ≡ netmask 32 p))
unfolding is_mask
listed a p h = elim (Bool-cases (leb p 128 && (a == netmask 128 p))) [
  | inl six ↦ inl (split a p 128 six)
  | inr other ↦ inr (split a p 32 (rw (other) at h))
]

-- The prefix length of an address is p exactly when the address, as a number, is the netmask of p
-- ones in 128 bits, or the netmask of p ones in 32 bits: every netmask of both families is found
-- with its length, and nothing else is.
pub mask_plen-netmask :
    (ip : IpAddr) (p : ℕ)
    → (mask_plen ip ≡ some p)
      ↔ (((p ≤ 128) × (ip.addr ≡ netmask 128 p)) ⊎ ((p ≤ 32) × (ip.addr ≡ netmask 32 p)))
unfolding mask_plen
mask_plen-netmask ip p = (
  λ h. listed ip.addr p (
      lookup-Entries (λ a p. is_mask a p ≡ true) ip.addr p mask_map
        (all_masks-Entries mask_map map_masks) h),
  λ h. elim h [
    | inl six ↦ rw (six.1) (are_found-lookup 128 129 p (omega arith) inet6_found)
    | inr four ↦ rw (four.1) (are_found-lookup 32 33 p (omega arith) inet_found)
  ],
)
