-- ===== src/IpAddr/Network.antt =====
-- `isInNet` and `contains` of fail2ban/server/ipdns.py: networks as ranges of addresses.
use native.Mathlib.Nat.{
  div-one, one-mul, add-zero, add-suc, mul-one, pow-zero, pow-suc, one-le-pow, mul_assoc,
  mul-div-mul_left, div-div-eq-div-mul, div-eq_of_lt-le, div-add-mod, mod-lt,
}
use fail2ban.Common.{
  ℕ, zero, suc, ◌+◌, ◌-◌, ◌*◌, ◌/◌, ◌^◌, ◌≤◌, ◌<◌, ◌≡◌, ◌↔◌, sym, ap, ◌∙◌, true, arith, ◌==◌,
}
use fail2ban.IpAddr.{IpAddr, unspec, inet, inet6, raw_id, mask_out, in_prefix}

pub pow_pos : (n : ℕ) → 0 < 2 ^ n
pow_pos n = one-le-pow n 2 (omega arith)

pub pow-add : (a b : ℕ) → 2 ^ (a + b) ≡ 2 ^ a * 2 ^ b
pow-add a zero = simp (add-zero, mul-one, pow-zero)
pow-add a (suc b) =
    ap (λ n. 2 ^ n) (add-suc a b)
    ∙ pow-suc 2 (a + b)
    ∙ ap (λ n. n * 2) (pow-add a b)
    ∙ mul_assoc (2 ^ a) (2 ^ b) 2
    ∙ ap (λ n. 2 ^ a * n) (sym (pow-suc 2 b))

-- The block of numbers that share their bits above the last ones.
module _ (b q x : ℕ) (nonzero : 0 < b) where
  block_lt : b * (x / b) ≡ b * q → (b * q ≤ x) × (x < b * q + b)
  block_lt e = omega (arith, div-add-mod x b, mod-lt x nonzero)

  block_eq : b * q ≤ x → x < b * q + b → b * (x / b) ≡ b * q
  block_eq lo hi = ap (λ (n : ℕ). b * n) (div-eq_of_lt-le b (grind arith) (grind arith))

-- Clearing the last bits twice, the second time at least as many of them.
pub mask_out-mask_out : (w p p' a : ℕ) → p' ≤ p → mask_out w p' (mask_out w p a) ≡ mask_out w p' a
unfolding mask_out
mask_out-mask_out w p p' a h =
    let small = 2 ^ (w - p) in
    let more = 2 ^ ((w - p') - (w - p)) in
    let big : 2 ^ (w - p') ≡ small * more =
      ap (λ (n : ℕ). 2 ^ n) (omega arith) ∙ pow-add (w - p) ((w - p') - (w - p)) in
    rw big (
      ap (λ (n : ℕ). small * more * n)
        (mul-div-mul_left (a / small) more (pow_pos (w - p)) ∙ div-div-eq-div-mul a small more))

pub mask_out_full : (w p a : ℕ) → w ≤ p → mask_out w p a ≡ a
unfolding mask_out
mask_out_full w p a h =
    let e : w - p ≡ 0 = omega arith in rw (e, pow-zero) (ap (λ n. 1 * n) (div-one a) ∙ one-mul a)

-- The bits of an address, 0 of what is no address.
abbrev pub width : IpAddr → ℕ
width ip = elim ip.family [ unspec ↦ 0 | inet ↦ 32 | inet6 ↦ 128 | raw_id ↦ 0 ]

in_prefix-mask_out :
    (ip net : IpAddr)
    → ip.family ≡ net.family
    → 0 < width net
    → in_prefix ip net ≡ (mask_out (width net) net.plen ip.addr == net.addr)
unfolding in_prefix
in_prefix-mask_out ip net same proper = ground arith

-- A network whose address is masked, as `IPAddr` makes it from any address and a prefix length,
-- holds exactly the addresses of its family in the block of that size which starts at its address.
pub in_prefix_range :
    (ip net : IpAddr) (a : ℕ)
    → ip.family ≡ net.family
    → 0 < width net
    → net.addr ≡ mask_out (width net) net.plen a
    → (in_prefix ip net ≡ true)
      ↔ ((net.addr ≤ ip.addr) × (ip.addr < net.addr + 2 ^ (width net - net.plen)))
unfolding mask_out
in_prefix_range ip net a same proper masked =
    let b = 2 ^ (width net - net.plen) in
    let q = a / b in
    let at : in_prefix ip net ≡ (b * (ip.addr / b) == net.addr) =
      in_prefix-mask_out ip net same proper in
    let lt = block_lt b q ip.addr (pow_pos (width net - net.plen)) in
    let eq = block_eq b q ip.addr (pow_pos (width net - net.plen)) in
    (λ h. ground (arith, lt), λ h. ground (arith, eq))

-- A network inside a wider one: what the narrow one holds, the wide one holds.
pub in_prefix_nested :
    (ip net outer : IpAddr)
    → ip.family ≡ net.family
    → net.family ≡ outer.family
    → 0 < width net
    → outer.plen ≤ net.plen
    → in_prefix ip net ≡ true
    → in_prefix net outer ≡ true
    → in_prefix ip outer ≡ true
in_prefix_nested ip net outer same same' proper wider inner nested =
    let wide : width outer ≡ width net = ground arith in
    let first : mask_out (width net) net.plen ip.addr ≡ net.addr =
      ground (arith, in_prefix-mask_out ip net same proper) in
    let second : mask_out (width net) outer.plen net.addr ≡ outer.addr =
      ground (arith, in_prefix-mask_out net outer same' (rw wide proper)) in
    let third : mask_out (width net) outer.plen ip.addr ≡ outer.addr =
      sym (mask_out-mask_out (width net) net.plen outer.plen ip.addr wider)
      ∙ ap (mask_out (width net) outer.plen) first
      ∙ second in
    ground (arith, in_prefix-mask_out ip outer (same ∙ same') (rw wide proper))
