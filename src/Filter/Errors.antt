-- ===== src/Filter/Errors.antt =====
-- The error counter of fail2ban/server/filter.py: `commonError` and the end of `processLineAndAdd`.
use fail2ban.Common.{ℕ, zero, suc, ◌+◌, ◌≤◌, ◌<◌, ◌≡◌, refl, false, arith, if◌then◌else◌, ◌==◌}
use fail2ban.Filter.{Filter, common_error}

module _ {K : Type 0} where
  -- So many calls of `commonError` one after the other
  abbrev pub errors_in_row : ℕ → Filter K → Filter K
  errors_in_row zero f = f
  errors_in_row (suc n) f = common_error (errors_in_row n f)

  -- From a filter that works, with `e` errors counted, fewer than 100 - e errors in a row are counted
  -- and leave it working.
  errors_below :
      (n : ℕ) (f : Filter K)
      → f.errors + n < 100
      → ((errors_in_row n f).errors ≡ f.errors + n) × ((errors_in_row n f).idle ≡ f.idle)
  unfolding common_error
  errors_below zero f h = (omega arith, refl)
  errors_below (suc n) f h = ground (arith, errors_below n f (omega arith))

  -- Of any number of errors in a row, up to that which makes the 100th counted one, exactly the last
  -- makes a working filter idle, and it halves the counter.
  pub idle_at_hundred :
      (n : ℕ) (f : Filter K)
      → f.idle ≡ false
      → f.errors + n ≤ 100
      → f.errors < 100
      → let f' = errors_in_row n f in
        (f'.idle ≡ (f.errors + n == 100))
        × (f'.errors ≡ (if f.errors + n == 100 then 50 else f.errors + n))
  unfolding common_error
  idle_at_hundred zero f working h below = ground arith
  idle_at_hundred (suc n) f working h below = ground (arith, errors_below n f (omega arith))
