-- ===== src/MyTime/Accuracy.antt =====
-- How far the text of `seconds2str` of fail2ban/server/mytime.py is from the duration.
use fail2ban.Common.{
  ℕ, ◌⊎◌, inl, inr, Bool-cases, ◌+◌, ◌*◌, ◌/◌, ◌%◌, ◌≤◌, ◌<◌, ◌≡◌, refl, Bool, true, false, List,
  [], ◌∷◌, leb, ◌==◌, if◌then◌else◌, arith,
}
use fail2ban.Ticket.{round_ratio}
use native.Mathlib.Nat.{div-add-mod, mod-lt, mul-add, mul-zero, mul-one}
use fail2ban.MyTime.{
  TimeUnit, year, week, day, hour, minute, second, Shown, zero_text, groups, in_years, in_weeks,
  in_days, in_hours, in_minutes, seconds_to_str,
}

-- The seconds of a unit
abbrev pub unit_seconds : TimeUnit → ℕ
unit_seconds year = 31536000
unit_seconds week = 604800
unit_seconds day = 86400
unit_seconds hour = 3600
unit_seconds minute = 60
unit_seconds second = 1

abbrev pub total : List (ℕ × TimeUnit) → ℕ
total [] = 0
total (g ∷ gs) = g.0 * unit_seconds g.1 + total gs

abbrev pub shown_seconds : Shown → ℕ
shown_seconds zero_text = 0
shown_seconds (groups gs) = total gs

mul_bit : (b r : ℕ) → r < 2 → (b * r ≡ 0) ⊎ (b * r ≡ b)
mul_bit b r h = elim (Bool-cases (r == 0)) [
  | inl none ↦ let e : r ≡ 0 = ground arith in inl (rw e (mul-zero b))
  | inr one ↦ let e : r ≡ 1 = ground arith in inr (rw e (mul-one b))
]

round_near :
    (a b : ℕ)
    → 0 < b
    → (2 * a ≤ 2 * (b * round_ratio a b) + b) × (2 * (b * round_ratio a b) ≤ 2 * a + b)
unfolding round_ratio
round_near a b h =
    let half : (b * (a / b % 2) ≡ 0) ⊎ (b * (a / b % 2) ≡ b) =
      mul_bit b (a / b % 2) (omega arith) in
    ground
      (arith, div-add-mod a b, mod-lt a h, mul-add b (a / b) 1, mul-add b (a / b) (a / b % 2), half)

total-in_years : (s : ℕ) → total (in_years s) ≡ 86400 * s
unfolding in_years
total-in_years s = ground arith

total-in_weeks : (s : ℕ) → total (in_weeks s) ≡ 3600 * s
unfolding in_weeks
total-in_weeks s = ground arith

total-in_days : (s : ℕ) → total (in_days s) ≡ 60 * s
unfolding in_days
total-in_days s = ground arith

total-in_minutes : (s : ℕ) → total (in_minutes s) ≡ s
unfolding in_minutes
total-in_minutes s = ground arith

total-in_hours : (s : ℕ) → (total (in_hours s) ≤ 10 * s) × (10 * s ≤ total (in_hours s) + 50)
unfolding in_hours
total-in_hours s = ground arith

shown_if :
    (b : Bool) (x y : Shown)
    → shown_seconds (if b then x else y) ≡ (if b then shown_seconds x else shown_seconds y)
shown_if true x y = refl
shown_if false x y = refl

-- The half of the seconds that the text may be too long, and that it may be too short.
abbrev too_long : ℕ → ℕ
too_long s =
    if leb 31536000 s
    then 86400
    else if leb 604800 s
    then 3600
    else if leb 86400 s
    then 60
    else if leb 3595 s
    then 10
    else 0

abbrev too_short : ℕ → ℕ
too_short s =
    if leb 31536000 s
    then 86400
    else if leb 604800 s
    then 3600
    else if leb 86400 s
    then 60
    else if leb 3595 s
    then 110
    else 0

-- The text is exact below 3595 seconds, and else right to half a day from a year on, to half an
-- hour from a week on, to half a minute from a day on, and from 3595 seconds on at most 5 seconds
-- too long or 55 seconds too short.
pub seconds_to_str_accuracy :
    (s : ℕ)
    → (2 * shown_seconds (seconds_to_str s) ≤ 2 * s + too_long s)
      × (2 * s ≤ 2 * shown_seconds (seconds_to_str s) + too_short s)
unfolding seconds_to_str
seconds_to_str_accuracy s =
    let below = if s == 0 then zero_text else groups (in_minutes s) in
    let hours = groups (in_hours (round_ratio s 10)) in
    let from_hours = if leb 3595 s then hours else below in
    let days = groups (in_days (round_ratio s 60)) in
    let from_days = if leb 86400 s then days else from_hours in
    let weeks = groups (in_weeks (round_ratio s 3600)) in
    let from_weeks = if leb 604800 s then weeks else from_days in
    let years = groups (in_years (round_ratio s 86400)) in
    ground (
      arith,
      shown_if (leb 31536000 s) years from_weeks,
      shown_if (leb 604800 s) weeks from_days,
      shown_if (leb 86400 s) days from_hours,
      shown_if (leb 3595 s) hours below,
      shown_if (s == 0) zero_text (groups (in_minutes s)),
      round_near s 86400 (omega arith),
      total-in_years (round_ratio s 86400),
      round_near s 3600 (omega arith),
      total-in_weeks (round_ratio s 3600),
      round_near s 60 (omega arith),
      total-in_days (round_ratio s 60),
      round_near s 10 (omega arith),
      total-in_hours (round_ratio s 10),
      total-in_minutes s,
    )
