-- ===== src/MyTime.antt =====
-- `MyTime.seconds2str` of fail2ban/server/mytime.py: a duration as at most three groups, each a
-- number and its unit. The decimal digits of the numbers and the spaces between the groups are left
-- out. The quotients that Python rounds are those of whole seconds, for which `float` is exact enough.
pub mod Accuracy
use fail2ban.Common.{
  ℕ, ◌+◌, ◌*◌, ◌/◌, ◌%◌, Bool, true, false, List, [], ◌∷◌, leb, ◌==◌, if◌then◌else◌, ◌++◌,
}
use fail2ban.Ticket.{round_ratio}

pub data TimeUnit : Type 0 where
  year week day hour minute second : TimeUnit

-- The text `0`, or the groups
pub data Shown : Type 0 where
  zero_text : Shown
  groups : List (ℕ × TimeUnit) → Shown

-- A group that is written when the value reaches it
abbrev group_if : Bool → ℕ → TimeUnit → List (ℕ × TimeUnit)
group_if b n u = if b then (n, u) ∷ [] else []

-- The branch of years: `s` in days
unfoldable pub in_years : ℕ → List (ℕ × TimeUnit)
in_years s =
    let rest = s % 365 in
    let days = if leb 7 rest then rest % 7 else rest in
    (s / 365, year)
    ∷ (group_if (leb 7 rest) (rest / 7) week ++ (if days == 0 then [] else (days, day) ∷ []))

-- The branch of weeks: `s` in hours
unfoldable pub in_weeks : ℕ → List (ℕ × TimeUnit)
in_weeks s =
    let rest = s % 168 in
    let hours = if leb 24 rest then rest % 24 else rest in
    (s / 168, week)
    ∷ (group_if (leb 24 rest) (rest / 24) day ++ (if hours == 0 then [] else (hours, hour) ∷ []))

-- The branch of days: `s` in minutes
unfoldable pub in_days : ℕ → List (ℕ × TimeUnit)
in_days s =
    let rest = s % 1440 in
    let minutes = if leb 60 rest then rest % 60 else rest in
    (s / 1440, day)
    ∷ (group_if (leb 60 rest) (rest / 60) hour
        ++ (if minutes == 0 then [] else (minutes, minute) ∷ []))

-- The branch of hours: `s` in tens of seconds
unfoldable pub in_hours : ℕ → List (ℕ × TimeUnit)
in_hours s = let rest = s % 360 in (s / 360, hour) ∷ group_if (leb 6 rest) (rest / 6) minute

-- The last lines, below an hour
unfoldable pub in_minutes : ℕ → List (ℕ × TimeUnit)
in_minutes s =
    let seconds = if leb 60 s then s % 60 else s in
    group_if (leb 60 s) (s / 60) minute ++ (if seconds == 0 then [] else (seconds, second) ∷ [])

unfoldable pub seconds_to_str : ℕ → Shown
seconds_to_str s =
    if leb 31536000 s
    then groups (in_years (round_ratio s 86400))
    else if leb 604800 s
    then groups (in_weeks (round_ratio s 3600))
    else if leb 86400 s
    then groups (in_days (round_ratio s 60))
    else if leb 3595 s
    then groups (in_hours (round_ratio s 10))
    else if s == 0
    then zero_text
    else groups (in_minutes s)
