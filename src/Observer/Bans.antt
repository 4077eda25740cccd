-- ===== src/Observer/Bans.antt =====
-- What `banFound` of fail2ban/server/observer.py does to the ban time of a ticket, and to the ban list
-- that holds the ticket.
use fail2ban.Common.{
  ℕ, ◌≤◌, ◌<◌, ◌≡◌, refl, Bool, true, false, not, ◌&&◌, Option, none, some, List, [], ◌∷◌, ltb,
  if◌then◌else◌, arith, inl, inr, Bool-cases,
}
use fail2ban.Common.Int.{+ℤ_parts, ℤ, pos, ◌<ℤ◌, ◌≤ℤ◌, ◌+ℤ◌, ltb_ℤ, eqb_ℤ}
use fail2ban.Ticket.{
  Ticket, permanent, get_end_of_ban_time, get_ban_time, restored, set_ban_count, set_ban_time,
  set_restored,
}
use fail2ban.BanTime.{BanTimeExtra, BanRow, smaller, ev_formula, incr_known, incr_ban_time}
use fail2ban.BanTime.Growth.{ev_formula_grows}
use fail2ban.Observer.{
  BanFound, is_there, prolong_delay, ban_found, ban_increased, increased, report_ban,
}

delay_bounds : (a b : ℤ) → (pos 0 ≤ℤ prolong_delay a b) × (prolong_delay a b ≤ℤ pos 10)
unfolding prolong_delay
delay_bounds a b = ground arith

shift-le : (x : ℤ) (i j : ℕ) → i ≤ j → x +ℤ pos i ≤ℤ x +ℤ pos j
shift-le x i j h = ground (arith, +ℤ_parts x (pos i), +ℤ_parts x (pos j))

shift-lt : (x : ℤ) (i j : ℕ) → i < j → x +ℤ pos i <ℤ x +ℤ pos j
shift-lt x i j h = ground (arith, +ℤ_parts x (pos i), +ℤ_parts x (pos j))

module _ {K : Type 0} where
  unset_time : (t : Ticket K) (b : ℤ) → t.ban_time ≡ none → get_ban_time t b ≡ b
  unfolding get_ban_time
  unset_time t b h = rw (get_ban_time, h) refl

  -- A ban time that is at least the one before, with the ticket that has it
  Grown : ℕ → Ticket K → ℤ × Ticket K → Type 0
  Grown time t (b, t') =
      (k : ℕ) × (b ≡ pos k) × (time ≤ k) × (t'.time ≡ t.time) × (get_ban_time t' (pos time) ≡ pos k)

  same-Grown : (time : ℕ) (t : Ticket K) → t.ban_time ≡ none → Grown time t (pos time, t)
  unfolding Grown get_ban_time
  same-Grown time t unset = (time, refl, omega arith, refl, rw (get_ban_time, unset) refl)

  -- No option makes the ban time shorter: the formula has no multipliers, and the longest time is not
  -- less than the ban time.
  module _ (be : BanTimeExtra) (time : ℕ) (simple : be.multipliers ≡ [])
      (wide : elim be.max_time [ none ↦ time | some m ↦ smaller time m ] ≡ time) where
    incr_known-Grown : (row : BanRow) (t : Ticket K) → Grown time t (incr_known be time row t)
    unfolding Grown incr_known get_ban_time set_ban_count set_ban_time set_restored
    incr_known-Grown row t =
        let grown = ev_formula_grows be time row.ban_count row.ban_count simple (omega arith) in
        (
          if ltb 0 row.ban_count then ev_formula be time row.ban_count else time,
          ground arith,
          ground (arith, grown.1),
          ground arith,
          ground arith,
        )

    increased-Grown :
        (alive : Bool) (rows : Option (List BanRow)) (t : Ticket K)
        → t.ban_time ≡ none
        → Grown time t (increased alive be rows (pos time) t)
    unfolding increased incr_ban_time
    increased-Grown alive none t unset = same-Grown time t unset
    increased-Grown alive (some []) t unset =
        elim (Bool-cases (alive && ltb_ℤ (pos 0) (pos time) && be.increment)) [
          | inl on ↦ rw (on) (same-Grown time t unset)
          | inr off ↦ rw (off) (same-Grown time t unset)
        ]
    increased-Grown alive (some (row ∷ rows)) t unset =
        elim (Bool-cases (alive && ltb_ℤ (pos 0) (pos time) && be.increment)) [
          | inl on ↦ rw (on) (incr_known-Grown row t)
          | inr off ↦ rw (off) (same-Grown time t unset)
        ]

    set-Grown :
        (t : Ticket K) (r : ℤ × Ticket K)
        → Grown time t r
        → Grown time t (r.0, set_ban_time r.0 r.1)
    unfolding Grown set_ban_time get_ban_time
    set-Grown t (b, t') (k, is_k, le, same, has) = (k, is_k, le, same, is_k)

    ban_increased-Grown :
        (alive : Bool) (rows : Option (List BanRow)) (t : Ticket K)
        → t.ban_time ≡ none
        → Grown time t (ban_increased alive be rows (pos time) t)
    unfolding ban_increased Grown
    ban_increased-Grown alive rows t unset =
        let r = increased alive be rows (pos time) t in
        let grown = increased-Grown alive rows t unset in
        let timed : eqb_ℤ (pos time) permanent ≡ false = ground arith in
        elim (Bool-cases (if eqb_ℤ r.0 permanent then true else ltb_ℤ (pos time) r.0)) [
          | inl longer ↦ rw (ban_increased, unset, timed, longer) (set-Grown t r grown)
          | inr not_longer ↦ rw (ban_increased, unset, timed, not_longer) grown
        ]

  -- The end of a ban, with the ban time of the jail
  end_at :
      (t : Ticket K) (time k : ℕ)
      → get_ban_time t (pos time) ≡ pos k
      → get_end_of_ban_time t (pos time) ≡ t.time +ℤ pos k
  unfolding get_end_of_ban_time
  end_at t time k h =
      let timed : eqb_ℤ (pos k) permanent ≡ false = ground arith in
      rw (get_end_of_ban_time, h, timed) refl

  -- What `banFound` schedules: nothing, or the prolonging of a longer ban within 10 seconds
  abbrev pub Prolongs : ℕ → Ticket K → BanFound K → Type 0
  Prolongs time t r = elim r.prolong_in [
    | none ↦ Unit {0}
    | some d ↦
        (pos 0 ≤ℤ d)
        × (d ≤ℤ pos 10)
        × (get_end_of_ban_time t (pos time) <ℤ get_end_of_ban_time r.ticket (pos time))
  ]

  report_ban_ends :
      (now : ℤ) (db : Bool) (time : ℕ) (t : Ticket K) (r : ℤ × Ticket K)
      → t.ban_time ≡ none
      → Grown time t r
      → let s = report_ban now db (pos time) r in
        (get_end_of_ban_time t (pos time) ≤ℤ get_end_of_ban_time s.ticket (pos time))
        × Prolongs time t s
  unfolding report_ban Grown
  report_ban_ends now db time t (b, t') unset (k, is_k, le, same, has) =
      let before = end_at t time time (unset_time t (pos time) unset) in
      let after = end_at t' time k has in
      let later : get_end_of_ban_time t (pos time) ≤ℤ get_end_of_ban_time t' (pos time) =
        rw (before, after, same) (shift-le t.time time k le) in
      let delay = delay_bounds b (pos time) in
      elim (Bool-cases (not (eqb_ℤ b permanent) && ltb_ℤ (t'.time +ℤ b) now)) [
        | inl over ↦ rw (over) (later, tt)
        | inr open' ↦ elim (Bool-cases (eqb_ℤ b (pos time))) [
          | inl unchanged ↦ rw (open', unchanged) (later, tt)
          | inr changed ↦
              rw (open', changed)
                (
                  later,
                  (
                    delay.0,
                    delay.1,
                    rw (before, after, same)
                        (shift-lt t.time time k (ground (arith, is_k, changed, le))),
                  ),
                )
        ]
      ]

  -- `banFound` for a ban of a ticket without a ban time of its own, where no option makes ban times
  -- shorter: whatever the database knows of the id, the ban does not end earlier than before, and the
  -- actions are told to prolong it only where it ends later, within 10 seconds.
  pub ban_found_ends :
      (now : ℤ) (alive : Bool) (be : BanTimeExtra) (rows : Option (List BanRow)) (t : Ticket K)
      (time : ℕ)
      → be.multipliers ≡ []
      → elim be.max_time [ none ↦ time | some m ↦ smaller time m ] ≡ time
      → t.ban_time ≡ none
      → let r = ban_found now alive be rows t (pos time) in
        (get_end_of_ban_time t (pos time) ≤ℤ get_end_of_ban_time r.ticket (pos time))
        × Prolongs time t r
  unfolding ban_found
  ban_found_ends now alive be rows t time simple wide unset = elim (Bool-cases (restored t)) [
    | inl old ↦ rw (ban_found, old) (ground arith, tt)
    | inr new ↦
        rw (ban_found, new)
          (report_ban_ends now (is_there rows) time t (ban_increased alive be rows (pos time) t)
            unset (ban_increased-Grown be time simple wide alive rows t unset))
  ]
