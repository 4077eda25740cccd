-- ===== src/Filter/Follow.antt =====
-- A line without a date after one with a date, `processLine` of fail2ban/server/filter.py. Times are
-- in microseconds.
use fail2ban.Common.{◌≡◌, refl, sym, ap, ◌∙◌, Bool, true, false, some, arith}
use fail2ban.Common.Int.{ℤ, pos, ◌+ℤ◌, ◌-ℤ◌, ltb_ℤ, ◌≤ℤ◌, eqb_ℤ, -ℤ_parts, +ℤ_parts}
use fail2ban.Filter.Dates.{
  LineParts, no_match, time_match, LineDates, DatedLine, recent_date, recent_of, last_parts,
  without_date, find_date, is_weird, Limit, as_it_is, as_now, too_old, limit_of, apply_limit,
  limit_date, process_text,
}
use fail2ban.Filter.Dating.{date_in}

-- A date that a line without a date takes over: not 0, less than a minute old, and not more than a
-- minute ahead
pub record IsFresh (now d : ℤ) : Type 0 where
  pub given : eqb_ℤ d (pos 0) ≡ false
  pub recent : ltb_ℤ (now -ℤ pos 60000000) d ≡ true
  pub near : d ≤ℤ (now +ℤ pos 60000000)

recent_of-IsFresh : (now d : ℤ) → IsFresh now d → recent_of now (some d) ≡ some d
unfolding recent_of
recent_of-IsFresh now d h = rw (h.given, h.recent) refl

is_weird-IsFresh : (now d : ℤ) → IsFresh now d → is_weird now d ≡ false
unfolding is_weird
is_weird-IsFresh now d h = ground (
  arith,
  -ℤ_parts d now,
  -ℤ_parts now (pos 60000000),
  +ℤ_parts now (pos 60000000),
  h.recent,
  h.near,
)

limit_of-IsFresh :
    (c w : Bool) (ft now d : ℤ)
    → pos 60000000 ≤ℤ ft
    → IsFresh now d
    → limit_of c w ft now d ≡ as_it_is
unfolding limit_of
limit_of-IsFresh false w ft now d le h = refl
limit_of-IsFresh true true ft now d le h = rw (is_weird-IsFresh now d h) refl
limit_of-IsFresh true false ft now d le h =
    let young : ltb_ℤ d (now -ℤ ft) ≡ false =
      ground (arith, -ℤ_parts now ft, -ℤ_parts now (pos 60000000), h.recent) in
    rw young refl

module _ {L : Type 0} where
  -- The last date is that of the line, unless the line is ignored.
  apply_limit-last :
      (now d : ℤ) (x : Limit) (l l' : DatedLine L) (s : LineDates L)
      → l.date ≡ some d
      → s.last_date ≡ some d
      → (apply_limit now x l s).0 ≡ some l'
      → (apply_limit now x l s).1.last_date ≡ l'.date
  unfolding apply_limit
  apply_limit-last now d as_it_is l l' s dated last given = last ∙ sym dated ∙ ap date_in given
  apply_limit-last now d as_now l l' s dated last given = ap date_in given
  apply_limit-last now d too_old l l' s dated last given = absurd (cc)

  apply_limit-same :
      (now : ℤ) (x : Limit) (l : DatedLine L) (s : LineDates L)
      → ((apply_limit now x l s).1.last_time_text ≡ s.last_time_text)
        × ((apply_limit now x l s).1.find_time ≡ s.find_time)
  unfolding apply_limit
  apply_limit-same now as_it_is l s = (refl, refl)
  apply_limit-same now as_now l s = (refl, refl)
  apply_limit-same now too_old l s = (refl, refl)

  undated_line :
      (now d : ℤ) (empty line t : L) (s : LineDates L)
      → s.last_date ≡ some d
      → s.last_time_text ≡ t
      → pos 60000000 ≤ℤ s.find_time
      → IsFresh now d
      → (process_text now empty line no_match s).0
        ≡ some (record {
          parts = record { before = empty; time_text = t; after = line };
          date = some d;
          no_date = true;
        })
  unfolding process_text find_date recent_date last_parts limit_date apply_limit without_date
  undated_line now d empty line t s last text le fresh =
      let old : recent_date now s ≡ some d =
        ap (recent_of now) last ∙ recent_of-IsFresh now d fresh in
      let blank : LineParts L = record { before = empty; time_text = empty; after = line } in
      let found : DatedLine L = record {
        parts = last_parts empty line s;
        date = some d;
        no_date = true;
      } in
      let taken : without_date now empty line blank s ≡ found = rw (without_date, old) refl in
      ap (λ (x : DatedLine L). (limit_date now x.date x s).0) taken
      ∙ ap (λ (x : Limit). (apply_limit now x found s).0)
          (limit_of-IsFresh s.check_find_time s.in_operation s.find_time now d le fresh)
      ∙ ap
          (λ (t : L). some (record {
            parts = record { before = empty; time_text = t; after = line };
            date = some d;
            no_date = true;
          }))
          text

  -- A line in which no date is found, after a line with a date that was not ignored, gets the date and
  -- the time text of that line, if that date is fresh and the find time is a minute or more.
  pub undated_line_follows :
      (now now' d d' : ℤ) (empty line line' : L) (parts : LineParts L) (l : DatedLine L)
      (s : LineDates L)
      → (process_text now empty line (time_match parts (some d)) s).0 ≡ some l
      → l.date ≡ some d'
      → IsFresh now' d'
      → pos 60000000 ≤ℤ s.find_time
      → (let s' = (process_text now empty line (time_match parts (some d)) s).1 in
          (process_text now' empty line' no_match s').0
          ≡ some (record {
            parts = record { before = empty; time_text = parts.time_text; after = line' };
            date = some d';
            no_date = true;
          }))
  unfolding process_text find_date limit_date
  undated_line_follows now now' d d' empty line line' parts l s given dated fresh le =
      let first : DatedLine L = record { parts = parts; date = some d; no_date = false } in
      let s1 = record s { last_time_text = parts.time_text; last_date = some d } in
      let x = limit_of s.check_find_time s.in_operation s.find_time now d in
      let same' = apply_limit-same now x first s1 in
      undated_line now' d' empty line' parts.time_text (apply_limit now x first s1).1
        (apply_limit-last now d x first l s1 refl refl given ∙ dated) same'.0 (rw same'.1 le) fresh
