-- ===== src/Ticket/Estimate.antt =====
-- The estimate of `FailTicket.adjustTime` of fail2ban/server/ticket.py: its fuel is enough.
use native.Mathlib.Nat.{pow-suc, mul_assoc, mul_comm, mul-le-mul, mul-le-mul_right}
use fail2ban.Common.{
  ℕ, zero, suc, ◌+◌, ◌*◌, ◌^◌, ◌≤◌, ◌<◌, ◌≡◌, sym, ap, ◌∙◌, leb, inl, inr, arith, Bool-cases,
}
use fail2ban.Ticket.{doublings}
use fail2ban.IpAddr.Network.{pow-add}

double : (a n : ℕ) → a * 2 ^ suc n ≡ 2 * a * 2 ^ n
double a n =
    ap (λ x. a * x) (pow-suc 2 n ∙ mul_comm (2 ^ n) 2)
    ∙ sym (mul_assoc a 2 (2 ^ n))
    ∙ ap (λ x. x * 2 ^ n) (mul_comm a 2)

lt-pow : (n : ℕ) → n < 2 ^ n
lt-pow zero = omega arith
lt-pow (suc n) = omega (arith, pow-suc 2 n, lt-pow n)

doublings_reach : (fuel a b : ℕ) → b ≤ a * 2 ^ fuel → b ≤ a * 2 ^ doublings fuel a b
unfolding doublings
doublings_reach zero a b h = h
doublings_reach (suc fuel) a b h = elim (Bool-cases (leb b a)) [
  | inl done ↦ rw (doublings, done) (ground (arith, done))
  | inr more ↦
      let rest = doublings_reach fuel (2 * a) b (omega (arith, h, double a fuel)) in
      rw (doublings, more) (omega (arith, rest, double a (doublings fuel (2 * a) b)))
]

-- The fuel of `estimate` is enough: a count above 0 is doubled until its quotient by the span has 53
-- bits.
estimate_fuel :
    (count span : ℕ)
    → 0 < count
    → 2 ^ 52 * span ≤ count * 2 ^ doublings (53 + span) count (2 ^ 52 * span)
estimate_fuel count span h =
    let grown : 2 ^ 52 * span ≤ 2 ^ 53 * 2 ^ span =
      mul-le-mul (omega arith) (omega (arith, lt-pow span)) in
    let once : 1 * 2 ^ (53 + span) ≤ count * 2 ^ (53 + span) =
      mul-le-mul_right (2 ^ (53 + span)) h in
    doublings_reach (53 + span) count (2 ^ 52 * span) (omega (arith, grown, once, pow-add 53 span))
