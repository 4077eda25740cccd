-- ===== src/Database/Current.antt =====
-- Which tickets `getCurrentBans` of fail2ban/server/database.py returns.
use fail2ban.Common.{
  ℕ, ◌≡◌, refl, ◌∙◌, true, false, not, ◌||◌, Option, some, List, [], ◌∷◌, All, length, ltb, ◌==◌,
  Bool-cases, inl, inr, arith,
}
use fail2ban.Common.Int.{ℤ, pos, negsuc, ◌+ℤ◌, ◌≤ℤ◌, ◌<ℤ◌, leb_ℤ, ltb_ℤ, eqb_ℤ}
use fail2ban.Ticket.{
  Ticket, Line, fail_ticket, new_ticket, set_ban_time, set_ban_count, set_matches, get_matches,
}
use fail2ban.Database.{
  CurrentRow, correct_ban_time, is_too_old, limit_matches, current_ticket, get_current_bans,
}

-- With a limit above 0, a known ban time is corrected to one that is not permanent and not longer.
correct_ban_time_limits :
    (jail_time : Option ℤ) (c b : ℤ)
    → ltb_ℤ (pos 0) c ≡ true
    → eqb_ℤ b (negsuc 1) ≡ false
    → (correct_ban_time jail_time (some c) b ≤ℤ c)
      × (eqb_ℤ (correct_ban_time jail_time (some c) b) (negsuc 0) ≡ false)
unfolding correct_ban_time
correct_ban_time_limits jail_time c b positive known =
    let given : not (eqb_ℤ c (pos 0)) ≡ true = ground (arith, positive) in
    let above : leb_ℤ (pos 0) c ≡ true = ground (arith, positive) in
    elim (Bool-cases (eqb_ℤ b (negsuc 0) || ltb_ℤ c b)) [
      | inl long ↦ rw (correct_ban_time, known, given, above, long) (ground (arith, positive))
      | inr short ↦ rw (correct_ban_time, known, given, above, short) (ground (arith, short))
    ]

is_too_old-ends :
    (from_time time b : ℤ)
    → is_too_old from_time time b ≡ false
    → eqb_ℤ b (negsuc 0) ≡ false
    → from_time <ℤ (time +ℤ b)
unfolding is_too_old
is_too_old-ends from_time time b young temporary = ground (arith, young, temporary)

module _ {K : Type 0} where
  set_ban_count_fields :
      (n : ℕ) (t : Ticket K)
      → ((set_ban_count n false t).ban_time ≡ t.ban_time)
        × ((set_ban_count n false t).time ≡ t.time)
  unfolding set_ban_count
  set_ban_count_fields n t = elim (Bool-cases (ltb t.ban_count n)) [
    | inl e ↦ rw (set_ban_count, e) (refl, refl)
    | inr e ↦ rw (set_ban_count, e) (refl, refl)
  ]

  set_matches_time : (ls : List Line) (t : Ticket K) → (set_matches ls t).time ≡ t.time
  unfolding set_matches
  set_matches_time [] t = refl
  set_matches_time (l ∷ ls) t = refl

  limit_matches_time : (n : ℕ) (t : Ticket K) → (limit_matches n t).time ≡ t.time
  unfolding limit_matches
  limit_matches_time n t = elim (Bool-cases (n == 0)) [
    | inl e ↦ rw (limit_matches, e) (set_matches_time [] t)
    | inr e ↦ elim (Bool-cases (ltb n (length (get_matches t)))) [
      | inl long ↦ rw (limit_matches, e, long) (set_matches_time _ t)
      | inr short ↦ rw (limit_matches, e, short) refl
    ]
  ]

  current_ticket_fields :
      (n : ℕ) (now : ℤ) (r : CurrentRow K) (b : ℤ)
      → ((current_ticket n now r b).ban_time ≡ some b) × ((current_ticket n now r b).time ≡ r.time)
  unfolding current_ticket set_ban_time new_ticket
  current_ticket_fields n now r b =
      let t = new_ticket 0 fail_ticket r.id now (some r.time) [] r.extra in
      let counted = set_ban_count_fields r.ban_count (set_ban_time b (limit_matches n t)) in
      (counted.0, counted.1 ∙ limit_matches_time n t)

  -- The rows whose ban time is known
  abbrev pub AreKnown : List (CurrentRow K) → Type 0
  AreKnown [] = Unit {0}
  AreKnown (r ∷ rs) = (eqb_ℤ r.ban_time (negsuc 1) ≡ false) × AreKnown rs

  -- Read with a ban time above 0 to correct by, and from rows whose ban times are known, every ticket
  -- has a ban time of its own that is not longer than that, permanent bans included, and its ban ends
  -- after the given time.
  pub get_current_bans_last :
      (n : ℕ) (now from_time c : ℤ) (jail_time : Option ℤ) (rs : List (CurrentRow K))
      → ltb_ℤ (pos 0) c ≡ true
      → AreKnown rs
      → All
          (λ (t : Ticket K).
            (b : ℤ) × (t.ban_time ≡ some b) × (b ≤ℤ c) × (from_time <ℤ (t.time +ℤ b)))
          (get_current_bans n now from_time jail_time (some c) rs)
  unfolding get_current_bans
  get_current_bans_last n now from_time c jail_time [] positive known = tt
  get_current_bans_last n now from_time c jail_time (r ∷ rs) positive known =
      let b = correct_ban_time jail_time (some c) r.ban_time in
      let rest = get_current_bans_last n now from_time c jail_time rs positive known.1 in
      let limits = correct_ban_time_limits jail_time c r.ban_time positive known.0 in
      elim (Bool-cases (is_too_old from_time r.time b)) [
        | inl old ↦ rw (get_current_bans, old) rest
        | inr young ↦
            let fields = current_ticket_fields n now r b in
            let ends : from_time <ℤ ((current_ticket n now r b).time +ℤ b) =
              rw fields.1 (is_too_old-ends from_time r.time b young limits.1) in
            rw (get_current_bans, young) ((b, fields.0, limits.0, ends), rest)
      ]
