-- ===== src/BanTime/Growth.antt =====
-- How the ban time of fail2ban/server/jail.py and observer.py grows with the count of bans.
use native.Mathlib.Nat.{pow-le-pow_right, mul-le-mul_left, mul-le-mul_right}
use fail2ban.Common.{
  ℕ, ◌*◌, ◌^◌, ◌≤◌, ◌≡◌, refl, none, some, [], ltb, if◌then◌else◌, arith, inl, inr, Option-cases,
}
use fail2ban.BanTime.{BanTimeExtra, larger, smaller, ban_formula, ev_formula}

abbrev shift : ℕ → ℕ
shift count = if ltb count 20 then count else 20

shift-le : (i j : ℕ) → i ≤ j → shift i ≤ shift j
shift-le i j h = ground arith

-- The product in the formula grows with the count.
product-le :
    (time factor i j : ℕ) → i ≤ j → time * 2 ^ shift i * factor ≤ time * 2 ^ shift j * factor
product-le time factor i j h =
    mul-le-mul_right factor (mul-le-mul_left time (pow-le-pow_right (omega arith) (shift-le i j h)))

ban_formula-eq :
    (be : BanTimeExtra) (time count : ℕ)
    → be.multipliers ≡ []
    → ban_formula be time count ≡ larger time (time * 2 ^ shift count * be.factor)
unfolding ban_formula
ban_formula-eq be time count h = rw (ban_formula, h) refl

-- Without multipliers, the ban time of the formula does not shrink as the count of bans grows; it is
-- never less than the ban time it starts from, or than the longest time where that is less; and it
-- is never more than the longest time, where there is one.
pub ev_formula_grows :
    (be : BanTimeExtra) (time i j : ℕ)
    → be.multipliers ≡ []
    → i ≤ j
    → (ev_formula be time i ≤ ev_formula be time j)
      × (elim be.max_time [ none ↦ time | some m ↦ smaller time m ] ≤ ev_formula be time i)
      × (ev_formula be time i ≤ elim be.max_time [ none ↦ ban_formula be time i | some m ↦ m ])
unfolding ev_formula
ev_formula_grows be time i j h le =
    let first = ban_formula-eq be time i h in
    let second = ban_formula-eq be time j h in
    elim (Option-cases be.max_time) [
      | inl none' ↦ ground (arith, first, second, product-le time be.factor i j le)
      | inr (m, some') ↦ ground (arith, first, second, product-le time be.factor i j le)
    ]
