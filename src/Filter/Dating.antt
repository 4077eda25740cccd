-- ===== src/Filter/Dating.antt =====
-- The dates that `processLine` of fail2ban/server/filter.py gives to lines, in microseconds.
use fail2ban.Common.{
  ◌≡◌, refl, sym, ap, ◌∙◌, true, false, ◌&&◌, Option, none, some, Bool-cases, Option-cases, inl,
  inr, ◌⊎◌, arith,
}
use fail2ban.Common.Int.{ℤ, pos, ◌+ℤ◌, ◌-ℤ◌, ltb_ℤ, ◌≤ℤ◌, -ℤ_parts, +ℤ_parts}
use fail2ban.Filter.Dates.{
  LineParts, TimeMatch, no_match, empty_match, time_match, LineDates, DatedLine, recent_date,
  without_date, with_empty_date, find_date, is_weird, Limit, as_it_is, as_now, too_old, limit_of,
  apply_limit, limit_date, process_text,
}

-- Less than 61 seconds apart
abbrev pub IsNear : ℤ → ℤ → Type 0
IsNear now d = (ltb_ℤ d (now +ℤ pos 61000000) ≡ true) × (ltb_ℤ now (d +ℤ pos 61000000) ≡ true)

IsNear-now : (now : ℤ) → IsNear now now
IsNear-now now = ground (arith, +ℤ_parts now (pos 61000000))

is_weird-IsNear : (now d : ℤ) → is_weird now d ≡ false → IsNear now d
unfolding is_weird
is_weird-IsNear now d h =
    ground (arith, -ℤ_parts d now, +ℤ_parts now (pos 61000000), +ℤ_parts d (pos 61000000), h)

limit_of-IsNear :
    (ft now d : ℤ)
    → (limit_of true true ft now d ≡ as_now)
      ⊎ ((limit_of true true ft now d ≡ as_it_is) × IsNear now d)
unfolding limit_of
limit_of-IsNear ft now d = elim (Bool-cases (is_weird now d)) [
  | inl far ↦ inl (rw (limit_of, far) refl)
  | inr near ↦ inr (rw (limit_of, near) refl, is_weird-IsNear now d near)
]

limit_of-young :
    (ft now d : ℤ)
    → (limit_of true false ft now d ≡ too_old)
      ⊎ ((limit_of true false ft now d ≡ as_it_is) × ((now -ℤ ft) ≤ℤ d))
unfolding limit_of
limit_of-young ft now d = elim (Bool-cases (ltb_ℤ d (now -ℤ ft))) [
  | inl old ↦ inl (rw (limit_of, old) refl)
  | inr young ↦ inr (rw (limit_of, young) refl, ground (arith, young))
]

none-some : {d : ℤ} → none ≡ some d → ⊥
none-some h = absurd (cc)

module _ {L : Type 0} where
  abbrev pub date_in : Option (DatedLine L) → Option ℤ
  date_in none = none
  date_in (some l) = l.date

module _ {L : Type 0} where
  limit_date-IsNear :
      (now d : ℤ) (l : DatedLine L) (s : LineDates L)
      → l.date ≡ some d
      → s.check_find_time ≡ true
      → s.in_operation ≡ true
      → (l' : DatedLine L) × (d' : ℤ) × ((limit_date now (some d) l s).0 ≡ some l')
        × (l'.date ≡ some d')
        × IsNear now d'
  unfolding limit_date apply_limit
  limit_date-IsNear now d l s dated check working =
      let same' : limit_of s.check_find_time s.in_operation s.find_time now d
          ≡ limit_of true true s.find_time now d =
        ap (λ b. limit_of b s.in_operation s.find_time now d) check
        ∙ ap (λ b. limit_of true b s.find_time now d) working in
      let out = λ (x : Limit). (apply_limit now x l s).0 in
      elim (limit_of-IsNear s.find_time now d) [
        | inl far ↦ (record l { date = some now }, now, ap out (same' ∙ far), refl, IsNear-now now)
        | inr near ↦ (l, d, ap out (same' ∙ near.0), dated, near.1)
      ]

  limit_date_young :
      (now d : ℤ) (o : Option ℤ) (l l' : DatedLine L) (s : LineDates L)
      → l.date ≡ o
      → s.check_find_time ≡ true
      → s.in_operation ≡ false
      → (limit_date now o l s).0 ≡ some l'
      → l'.date ≡ some d
      → (now -ℤ s.find_time) ≤ℤ d
  unfolding limit_date apply_limit
  limit_date_young now d none l l' s undated check starting given dated =
      absurd (none-some (sym undated ∙ ap date_in given ∙ dated))
  limit_date_young now d (some d0) l l' s dated0 check starting given dated =
      let same' : limit_of s.check_find_time s.in_operation s.find_time now d0
          ≡ limit_of true false s.find_time now d0 =
        ap (λ b. limit_of b s.in_operation s.find_time now d0) check
        ∙ ap (λ b. limit_of true b s.find_time now d0) starting in
      let out = λ (x : Limit). (apply_limit now x l s).0 in
      elim (limit_of-young s.find_time now d0) [
        | inl old ↦ absurd (none-some (ap date_in (sym (ap out (same' ∙ old)) ∙ given) ∙ dated))
        | inr young ↦
            let same_date : some d0 ≡ some d =
              sym dated0 ∙ ap date_in (sym (ap out (same' ∙ young.0)) ∙ given) ∙ dated in
            let d0-d : d0 ≡ d = cc in rw (← d0-d) young.1
      ]

  find_date-same :
      (now : ℤ) (empty line : L) (m : TimeMatch L) (s : LineDates L)
      → (let s' = (find_date now empty line m s).1 in
          (s'.check_find_time ≡ s.check_find_time)
          × (s'.in_operation ≡ s.in_operation)
          × (s'.find_time ≡ s.find_time))
  unfolding find_date
  find_date-same now empty line no_match s = (refl, refl, refl)
  find_date-same now empty line (empty_match parts) s = (refl, refl, refl)
  find_date-same now empty line (time_match parts none) s = (refl, refl, refl)
  find_date-same now empty line (time_match parts (some d)) s = (refl, refl, refl)

  without_date_dated :
      (now : ℤ) (empty line : L) (parts : LineParts L) (s : LineDates L)
      → s.check_find_time ≡ true
      → s.in_operation ≡ true
      → (d : ℤ) × ((without_date now empty line parts s).date ≡ some d)
  unfolding without_date
  without_date_dated now empty line parts s check working =
      let both : s.check_find_time && s.in_operation ≡ true =
        ap (λ b. b && s.in_operation) check ∙ working in
      elim (Option-cases (recent_date now s)) [
        | inr (d, e) ↦ (d, rw (without_date, e) refl)
        | inl e ↦ (now, rw (without_date, e, both) refl)
      ]

  find_date_dated :
      (now : ℤ) (empty line : L) (m : TimeMatch L) (s : LineDates L)
      → s.check_find_time ≡ true
      → s.in_operation ≡ true
      → (d : ℤ) × ((find_date now empty line m s).0.date ≡ some d)
  unfolding find_date with_empty_date
  find_date_dated now empty line no_match s check working =
      without_date_dated now empty line _ s check working
  find_date_dated now empty line (empty_match parts) s check working =
      elim (Option-cases (recent_date now s)) [
        | inr (d, e) ↦ (d, rw (with_empty_date, e) refl)
        | inl e ↦ (now, rw (with_empty_date, e) refl)
      ]
  find_date_dated now empty line (time_match parts none) s check working =
      without_date_dated now empty line parts s check working
  find_date_dated now empty line (time_match parts (some d)) s check working = (d, refl)

  -- In operation with `checkFindTime`, every line is given on, with a date that is less than 61 seconds
  -- away from now, whatever the date detector finds in it.
  pub process_text-IsNear :
      (now : ℤ) (empty line : L) (m : TimeMatch L) (s : LineDates L)
      → s.check_find_time ≡ true
      → s.in_operation ≡ true
      → (l : DatedLine L) × (d : ℤ) × ((process_text now empty line m s).0 ≡ some l)
        × (l.date ≡ some d)
        × IsNear now d
  unfolding process_text
  process_text-IsNear now empty line m s check working =
      let found = find_date now empty line m s in
      let same' = find_date-same now empty line m s in
      let dated = find_date_dated now empty line m s check working in
      let near =
        limit_date-IsNear now dated.0 found.0 found.1 dated.1 (same'.0 ∙ check)
          (same'.1 ∙ working) in
      (
        near.0,
        near.1,
        ap (λ o. (limit_date now o found.0 found.1).0) dated.1 ∙ near.2,
        near.3,
        near.4,
      )

  -- While a log is read for the first time with `checkFindTime`, a line that is given on with a date is
  -- not older than the find time.
  pub process_text_young :
      (now d : ℤ) (empty line : L) (m : TimeMatch L) (l : DatedLine L) (s : LineDates L)
      → s.check_find_time ≡ true
      → s.in_operation ≡ false
      → (process_text now empty line m s).0 ≡ some l
      → l.date ≡ some d
      → (now -ℤ s.find_time) ≤ℤ d
  unfolding process_text
  process_text_young now d empty line m l s check starting given dated =
      let found = find_date now empty line m s in
      let same' = find_date-same now empty line m s in
      rw (← same'.2) (
        limit_date_young now d found.0.date found.0 l found.1 refl (same'.0 ∙ check)
          (same'.1 ∙ starting) given dated)
