-- ===== src/Filter/Dates.antt =====
-- The date that `processLine` of fail2ban/server/filter.py takes for a line. What the date detector
-- finds in the line is an argument; texts are of any type. Times are in microseconds, as
-- `MyTime.time()` and the times of log lines have fractions of a second. Warnings are left out, and so is
-- `processedLine`, which is made of the parts of the line.
use fail2ban.Common.{◌+◌, ◌/◌, Bool, true, false, not, ◌&&◌, Option, none, some, ltb, if◌then◌else◌}
use fail2ban.Common.Int.{ℤ, pos, pos_part, neg_part, ◌-ℤ◌, ltb_ℤ, eqb_ℤ}

-- The parts of a line before, at and after its time
pub record LineParts (L : Type 0) : Type 0 where
  pub before : L
  pub time_text : L
  pub after : L

-- What `dateDetector` finds: nothing, an empty text, or a text with the time that it stands for
pub data TimeMatch (L : Type 0) : Type 0 where
  no_match : TimeMatch L
  empty_match : LineParts L → TimeMatch L
  time_match : LineParts L → Option ℤ → TimeMatch L

-- What `processLine` reads and writes
pub record LineDates (L : Type 0) : Type 0 where
  pub last_time_text : L
  pub last_date : Option ℤ
  pub check_find_time : Bool
  pub in_operation : Bool
  pub find_time : ℤ

-- What `processLine` gives to `findFailure`
pub record DatedLine (L : Type 0) : Type 0 where
  pub parts : LineParts L
  pub date : Option ℤ
  pub no_date : Bool

-- `abs(int(date - MyTime.time())) > 60`, where `int` drops the fraction of a second
unfoldable pub is_weird : ℤ → ℤ → Bool
is_weird now d = ltb 60 ((pos_part (d -ℤ now) + neg_part (d -ℤ now)) / 1000000)

-- What becomes of a date: it is taken, replaced by the time now, or its line is ignored.
pub data Limit : Type 0 where
  as_it_is as_now too_old : Limit

-- The tests of the second part of `processLine`, with `checkFindTime`, `inOperation` and the find time
unfoldable pub limit_of : Bool → Bool → ℤ → ℤ → ℤ → Limit
limit_of false in_operation find_time now d = as_it_is
limit_of true true find_time now d = if is_weird now d then as_now else as_it_is
limit_of true false find_time now d = if ltb_ℤ d (now -ℤ find_time) then too_old else as_it_is

-- `self.__lastDate`, if it is set, not 0, and less than a minute old
unfoldable pub recent_of : ℤ → Option ℤ → Option ℤ
recent_of now none = none
recent_of now (some d) =
    if not (eqb_ℤ d (pos 0)) && ltb_ℤ (now -ℤ pos 60000000) d then some d else none

module _ {L : Type 0} where
  unfoldable pub recent_date : ℤ → LineDates L → Option ℤ
  recent_date now s = recent_of now s.last_date

  -- The parts of a line that takes over the last time
  unfoldable pub last_parts : L → L → LineDates L → LineParts L
  last_parts empty line s = record { before = empty; time_text = s.last_time_text; after = line }

  -- A line in which no date was found
  unfoldable pub without_date : ℤ → L → L → LineParts L → LineDates L → DatedLine L
  without_date now empty line parts s = elim (recent_date now s) [
    | some d ↦ record { parts = last_parts empty line s; date = some d; no_date = true }
    | none ↦ record {
      parts = parts;
      date = if s.check_find_time && s.in_operation then some now else none;
      no_date = true;
    }
  ]

  -- A line with an empty time
  unfoldable pub with_empty_date : ℤ → L → L → LineParts L → LineDates L → DatedLine L
  with_empty_date now empty line parts s = elim (recent_date now s) [
    | some d ↦ record { parts = last_parts empty line s; date = some d; no_date = false }
    | none ↦ record { parts = parts; date = some now; no_date = false }
  ]

  -- The first part of `processLine`: the date of a line
  unfoldable pub find_date : ℤ → L → L → TimeMatch L → LineDates L → DatedLine L × LineDates L
  find_date now empty line no_match s = (
    without_date now empty line (record { before = empty; time_text = empty; after = line }) s,
    s,
  )
  find_date now empty line (empty_match parts) s = (with_empty_date now empty line parts s, s)
  find_date now empty line (time_match parts none) s = (without_date now empty line parts s, s)
  find_date now empty line (time_match parts (some d)) s = (
    record { parts = parts; date = some d; no_date = false },
    record s { last_time_text = parts.time_text; last_date = some d },
  )

  -- What follows from it; `none` is the empty list, which `processLine` returns for an ignored line.
  unfoldable pub apply_limit :
      ℤ → Limit → DatedLine L → LineDates L → Option (DatedLine L) × LineDates L
  apply_limit now as_it_is l s = (some l, s)
  apply_limit now as_now l s =
      (some (record l { date = some now }), record s { last_date = some now })
  apply_limit now too_old l s = (none, s)

  -- The second part of `processLine`, for a line with this date
  unfoldable pub limit_date :
      ℤ → Option ℤ → DatedLine L → LineDates L → Option (DatedLine L) × LineDates L
  limit_date now none l s = (some l, s)
  limit_date now (some d) l s =
      apply_limit now (limit_of s.check_find_time s.in_operation s.find_time now d) l s

  -- `processLine` up to `findFailure`, of a text
  unfoldable pub process_text :
      ℤ → L → L → TimeMatch L → LineDates L → Option (DatedLine L) × LineDates L
  process_text now empty line m s =
      let found = find_date now empty line m s in limit_date now found.0.date found.0 found.1

  -- and of the parts of a line with a date
  unfoldable pub process_parts :
      ℤ → LineParts L → ℤ → LineDates L → Option (DatedLine L) × LineDates L
  process_parts now parts d s =
      limit_date now (some d) (record { parts = parts; date = some d; no_date = false })
        (record s { last_time_text = parts.time_text; last_date = some d })
