-- ===== src/IpAddr/Parse.antt =====
-- `__init` of fail2ban/server/ipdns.py: what an address made from a text is.
use Prim.Native.String.{String}
use native.Mathlib.Nat.{mul-div-le}
use fail2ban.Common.{
  ℕ, ◌+◌, ◌-◌, ◌*◌, ◌%◌, ◌^◌, ◌≤◌, ◌<◌, ◌≡◌, ◌↔◌, ◌⊎◌, refl, ap, true, false, arith, inl, inr, Bool,
  ◌==◌, Option, some, none, if◌then◌else◌,
}
use fail2ban.IpAddr.{
  addr_eq, IpAddr, Family, unspec, inet, inet6, raw_id, mask_out, in_prefix, Cidr, cidr_raw,
  cidr_unspec, fam_inet, fam_inet6, prefix, init_inet, init_inet6, init_addr, no_address,
}
use fail2ban.IpAddr.Network.{width, mask_out-mask_out, mask_out_full}

mask_out_le : (w p a : ℕ) → mask_out w p a ≤ a
unfolding mask_out
mask_out_le w p a = mul-div-le a (2 ^ (w - p))

-- An address is a number of its width, and its bits after the prefix are 0.
abbrev pub IsMasked : IpAddr → Type 0
IsMasked ip = (ip.addr < 2 ^ width ip) × (mask_out (width ip) ip.plen ip.addr ≡ ip.addr)

abbrev pub IsBounded : ℕ → (String → Option ℕ) → Type 0
IsBounded w pton = (s : String) (a : ℕ) → pton s ≡ some a → a < 2 ^ w

raw_IsMasked : (f : Family) (s : String) → ((f ≡ unspec) ⊎ (f ≡ raw_id)) → IsMasked (no_address f s)
unfolding mask_out
raw_IsMasked f s (inl e) = rw e (omega arith, refl)
raw_IsMasked f s (inr e) = rw e (omega arith, refl)

init_inet-IsMasked : (s : String) (cidr : Cidr) (a : ℕ) → a < 2 ^ 32 → IsMasked (init_inet s cidr a)
unfolding init_inet
init_inet-IsMasked s (prefix n) a h =
    (omega (arith, mask_out_le 32 n a), mask_out-mask_out 32 n n a (omega arith))
init_inet-IsMasked s cidr_raw a h = (h, mask_out_full 32 32 a (omega arith))
init_inet-IsMasked s cidr_unspec a h = (h, mask_out_full 32 32 a (omega arith))
init_inet-IsMasked s fam_inet a h = (h, mask_out_full 32 32 a (omega arith))
init_inet-IsMasked s fam_inet6 a h = (h, mask_out_full 32 32 a (omega arith))

-- An IPv6 address without a prefix length: IPv4 where it lies in ::ffff:0:0/96.
plain_inet6 : String → ℕ → IpAddr
plain_inet6 s a = init_inet6 s cidr_unspec a

in_compat : ℕ → Bool
in_compat a = mask_out 128 96 a == 0xffff * 2 ^ 32

plain_inet6_lem :
    (s : String) (a : ℕ)
    → plain_inet6 s a ≡ (
        if in_compat a
        then record { family = inet; addr = a % 2 ^ 32; plen = 32; raw = s }
        else record { family = inet6; addr = a; plen = 128; raw = s })
unfolding in_compat plain_inet6 init_inet6 in_prefix
plain_inet6_lem s a = refl

-- An address lies in ::ffff:0:0/96 exactly when its number is that of an IPv4 address after 0xffff.
in_compat_iff :
    (a b : ℕ) → b < 2 ^ 32 → ((in_compat a ≡ true) × (a % 2 ^ 32 ≡ b)) ↔ (a ≡ 0xffff * 2 ^ 32 + b)
unfolding in_compat mask_out
in_compat_iff a b h = (λ e. ground arith, λ e. ground arith)

plain_inet6-IsMasked : (s : String) (a : ℕ) → a < 2 ^ 128 → IsMasked (plain_inet6 s a)
unfolding plain_inet6 init_inet6 in_prefix in_compat
plain_inet6-IsMasked s a h =
    elim (in_compat a)
      as (λ b. IsMasked (
        if b
        then record { family = inet; addr = a % 2 ^ 32; plen = 32; raw = s }
        else record { family = inet6; addr = a; plen = 128; raw = s })) [
          | true ↦ (omega arith, mask_out_full 32 32 (a % 2 ^ 32) (omega arith))
          | false ↦ (h, mask_out_full 128 128 a (omega arith))
        ]

init_inet6-IsMasked :
    (s : String) (cidr : Cidr) (a : ℕ) → a < 2 ^ 128 → IsMasked (init_inet6 s cidr a)
unfolding init_inet6 plain_inet6
init_inet6-IsMasked s (prefix n) a h =
    (omega (arith, mask_out_le 128 n a), mask_out-mask_out 128 n n a (omega arith))
init_inet6-IsMasked s cidr_raw a h = plain_inet6-IsMasked s a h
init_inet6-IsMasked s cidr_unspec a h = plain_inet6-IsMasked s a h
init_inet6-IsMasked s fam_inet a h = plain_inet6-IsMasked s a h
init_inet6-IsMasked s fam_inet6 a h = plain_inet6-IsMasked s a h

mapped_eq :
    (s t : String) (a b : ℕ)
    → a < 2 ^ 32
    → (addr_eq (plain_inet6 t b) (init_inet s cidr_unspec a) ≡ true) ↔ (b ≡ 0xffff * 2 ^ 32 + a)
unfolding init_inet addr_eq plain_inet6 init_inet6 in_prefix in_compat
mapped_eq s t a b h = ground (arith, in_compat_iff b a h)

module _ (pton : String → Option ℕ) (pton6 : String → Option ℕ) where
  of_inet :
      (s : String) (cidr : Cidr) (o : Option ℕ)
      → pton s ≡ o
      → IsBounded 32 pton
      → IsMasked (elim o [ some a ↦ init_inet s cidr a | none ↦ no_address unspec s ])
  of_inet s cidr none e bound = raw_IsMasked unspec s (inl refl)
  of_inet s cidr (some a) e bound = init_inet-IsMasked s cidr a (bound s a e)

  of_inet6 :
      (s : String) (cidr : Cidr) (o : Option ℕ)
      → pton6 s ≡ o
      → IsBounded 128 pton6
      → IsMasked (elim o [ some a ↦ init_inet6 s cidr a | none ↦ no_address unspec s ])
  of_inet6 s cidr none e bound = raw_IsMasked unspec s (inl refl)
  of_inet6 s cidr (some a) e bound = init_inet6-IsMasked s cidr a (bound s a e)

  of_either :
      (s : String) (cidr : Cidr) (o : Option ℕ)
      → pton s ≡ o
      → IsBounded 32 pton
      → IsBounded 128 pton6
      → IsMasked (elim o [
        | some a ↦ init_inet s cidr a
        | none ↦ elim (pton6 s) [ some a ↦ init_inet6 s cidr a | none ↦ no_address unspec s ]
      ])
  of_either s cidr none e bound bound6 = of_inet6 s cidr (pton6 s) refl bound6
  of_either s cidr (some a) e bound bound6 = init_inet-IsMasked s cidr a (bound s a e)

  -- Where `inet_pton` gives numbers of 32 and of 128 bits, what is made from any text, with any
  -- prefix length, even one that is too long, is a number of its width whose bits after the prefix
  -- are 0.
  pub init_addr-IsMasked :
      (s : String) (cidr : Cidr)
      → IsBounded 32 pton
      → IsBounded 128 pton6
      → IsMasked (init_addr pton pton6 s cidr)
  unfolding init_addr
  init_addr-IsMasked s cidr_raw bound bound6 = raw_IsMasked raw_id s (inr refl)
  init_addr-IsMasked s cidr_unspec bound bound6 = of_either s cidr_unspec (pton s) refl bound bound6
  init_addr-IsMasked s fam_inet bound bound6 = of_inet s fam_inet (pton s) refl bound
  init_addr-IsMasked s fam_inet6 bound bound6 = of_inet6 s fam_inet6 (pton6 s) refl bound6
  init_addr-IsMasked s (prefix n) bound bound6 = of_either s (prefix n) (pton s) refl bound bound6

  init_four :
      (s : String) (a : ℕ)
      → pton s ≡ some a
      → init_addr pton pton6 s cidr_unspec ≡ init_inet s cidr_unspec a
  unfolding init_addr
  init_four s a h = ground (arith, h)

  init_six :
      (s : String) (a : ℕ)
      → pton s ≡ none
      → pton6 s ≡ some a
      → init_addr pton pton6 s cidr_unspec ≡ plain_inet6 s a
  unfolding init_addr plain_inet6
  init_six s a h h' = ground (arith, h, h')

  -- The text of an IPv4 address and that of an IPv6 address, both without a prefix length, make
  -- equal addresses exactly when the IPv6 address is ::ffff:0:0 plus the IPv4 address.
  pub init_addr-addr_eq :
      (s t : String) (a b : ℕ)
      → a < 2 ^ 32
      → pton s ≡ some a
      → pton t ≡ none
      → pton6 t ≡ some b
      → (addr_eq (init_addr pton pton6 t cidr_unspec) (init_addr pton pton6 s cidr_unspec) ≡ true)
        ↔ (b ≡ 0xffff * 2 ^ 32 + a)
  init_addr-addr_eq s t a b h four six six' =
      let e : init_addr pton pton6 s cidr_unspec ≡ init_inet s cidr_unspec a = init_four s a four in
      let e' : init_addr pton pton6 t cidr_unspec ≡ plain_inet6 t b = init_six t b six six' in
      rw (ap addr_eq e', e) (mapped_eq s t a b h)
