-- ===== src/Date/Calendar.antt =====
-- The Gregorian calendar, from its rules: an independent description of the next day.
use excelize.Common.{ℕ, ◌+◌, ◌%◌, Bool, not, ◌&&◌, ◌||◌, ltb, ◌==◌, if◌then◌else◌}

-- A year is counted from -4800, a multiple of 400, so that it is not negative.
abbrev pub is_leap : ℕ → Bool
is_leap y = (y % 4 == 0) && (not (y % 100 == 0) || (y % 400 == 0))

abbrev pub month_days : Bool → ℕ → ℕ
month_days leap m =
    if (m == 11) || (m == 9) || (m == 6) || (m == 4)
    then 30
    else if not (m == 2)
    then 31
    else if leap
    then 29
    else 28

pub record Date : Type 0 where
  pub day : ℕ
  pub month : ℕ
  pub year : ℕ

abbrev pub next_in : Bool → Date → Date
next_in leap d =
    if ltb d.day (month_days leap d.month)
    then record d { day = d.day + 1 }
    else if ltb d.month 12
    then record d { day = 1; month = d.month + 1 }
    else record { day = 1; month = 1; year = d.year + 1 }

abbrev pub next_day : Date → Date
next_day d = next_in (is_leap d.year) d
