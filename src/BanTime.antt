-- ===== src/BanTime.antt =====
-- The growing ban time: the formula of `setBanTimeExtra` and `getMaxBanTime` of
-- fail2ban/server/jail.py, and `incrBanTime` of fail2ban/server/observer.py. The factor, the
-- multipliers and the longest time are natural numbers. A formula of the user, which Python
-- evaluates, and the random time are left out. The rows of the database are an argument.
pub mod Growth
use fail2ban.Common.{
  ℕ, zero, suc, ◌+◌, ◌*◌, ◌^◌, Bool, true, false, not, ◌&&◌, ◌||◌, Option, none, some, List, [],
  ◌∷◌, ltb, leb, if◌then◌else◌,
}
use fail2ban.Common.Int.{ℤ, pos, pos_part, ltb_ℤ}
use fail2ban.Ticket.{Ticket, permanent, set_ban_count, set_ban_time, set_restored}

-- `_banExtra`, the options that the formula reads
pub record BanTimeExtra : Type 0 where
  pub increment : Bool
  pub factor : ℕ
  pub multipliers : List ℕ
  pub max_time : Option ℕ

-- A row of `getBan`: the count of bans, the time of the last ban, and its ban time
pub record BanRow : Type 0 where
  pub ban_count : ℕ
  pub time_of_ban : ℤ
  pub last_ban_time : ℤ

-- `multipliers[n if n < len(multipliers) else -1]`, of `m ∷ ms`
unfoldable pub multiplier : ℕ → ℕ → List ℕ → ℕ
multiplier n m [] = m
multiplier zero m (m' ∷ ms) = m
multiplier (suc n) m (m' ∷ ms) = multiplier n m' ms

abbrev pub larger : ℕ → ℕ → ℕ
larger a b = if leb b a then a else b

abbrev pub smaller : ℕ → ℕ → ℕ
smaller a b = if leb a b then a else b

-- The formula of `evformula` before the longest time is applied
unfoldable pub ban_formula : BanTimeExtra → ℕ → ℕ → ℕ
ban_formula be time count = elim be.multipliers [
  | [] ↦ larger time (time * 2 ^ (if ltb count 20 then count else 20) * be.factor)
  | m ∷ ms ↦ time * be.factor * multiplier count m ms
]

-- `evformula`
unfoldable pub ev_formula : BanTimeExtra → ℕ → ℕ → ℕ
ev_formula be time count = elim be.max_time [
  | none ↦ ban_formula be time count
  | some m ↦ smaller (ban_formula be time count) m
]

-- `getMaxBanTime`
unfoldable pub get_max_ban_time : BanTimeExtra → ℤ → ℤ
get_max_ban_time be ban_time =
    if be.increment then elim be.max_time [ none ↦ permanent | some m ↦ pos m ] else ban_time

module _ {K : Type 0} where
  -- The body of the loop of `incrBanTime`, which ends after the first row
  unfoldable pub incr_known : BanTimeExtra → ℕ → BanRow → Ticket K → ℤ × Ticket K
  incr_known be time row t =
      let counted =
        if leb t.ban_count row.ban_count then set_ban_count (row.ban_count + 1) false t else t in
      let ban_time : ℤ =
        if ltb 0 row.ban_count then pos (ev_formula be time row.ban_count) else pos time in
      let timed = set_ban_time ban_time counted in
      (ban_time, if ltb_ℤ row.time_of_ban t.time then timed else set_restored true timed)

  -- `incrBanTime` for a living jail with a database: the new ban time, and the ticket
  unfoldable pub incr_ban_time : Bool → BanTimeExtra → List BanRow → ℤ → Ticket K → ℤ × Ticket K
  incr_ban_time active be rows ban_time t =
      if active && ltb_ℤ (pos 0) ban_time && be.increment
      then elim rows [ [] ↦ (ban_time, t) | row ∷ rest ↦ incr_known be (pos_part ban_time) row t ]
      else (ban_time, t)
