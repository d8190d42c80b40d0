-- ===== src/Date/Steps.antt =====
-- Each day number leads to the day after the one before it.
use excelize.Common.{
  ℕ, suc, ◌+◌, ◌-◌, ◌*◌, ◌/◌, ◌%◌, ◌≤◌, ◌<◌, ◌≡◌, refl, sym, ap, ◌∙◌, ◌≢◌, ◌⊎◌, inl, inr, Bool,
  true, false, arith,
}
use excelize.Date.Calendar.{is_leap, Date, next_in, next_day}
use excelize.Date.Cycle.{year_within, march_date, march_date-suc}

abbrev pub at_year : ℕ → Date → Date
at_year k d = record d { year = k + d.year }

next_in-at_year :
    (leap : Bool) (k : ℕ) (d : Date) → next_in leap (at_year k d) ≡ at_year k (next_in leap d)
next_in-at_year leap k d = ground arith

march_first : march_date 0 ≡ record { day = 1; month = 3; year = 0 }
unfolding march_date
march_first = refl

march_364 : march_date 364 ≡ record { day = 28; month = 2; year = 1 }
unfolding march_date
march_364 = refl

march_365 : march_date 365 ≡ record { day = 29; month = 2; year = 1 }
unfolding march_date
march_365 = refl

-- Within a year from March to February.
pub inside_year :
    (k e : ℕ)
    → (e < 364) ⊎ ((e ≡ 364) × (is_leap (k + 1) ≡ true))
    → at_year k (march_date (suc e)) ≡ next_day (at_year k (march_date e))
inside_year k e (inl h) =
    ap (at_year k) (march_date-suc (is_leap (k + (march_date e).year)) e h)
    ∙ sym (next_in-at_year (is_leap (k + (march_date e).year)) k (march_date e))
inside_year k e (inr (h, leap)) = rw (h, march_364, march_365) (rw leap)

-- From the last of February to the first of March.
pub over_year :
    (k e : ℕ)
    → ((e ≡ 364) × (is_leap (k + 1) ≡ false)) ⊎ ((e ≡ 365) × (is_leap (k + 1) ≡ true))
    → at_year (k + 1) (march_date 0) ≡ next_day (at_year k (march_date e))
over_year k e (inl (h, leap)) = rw (h, march_364, march_first) (rw leap (ground arith))
over_year k e (inr (h, leap)) = rw (h, march_365, march_first) (rw leap (ground arith))

-- The century of a day number, counted from -4900, and the day within it.
unfoldable pub century : ℕ → ℕ
century jd = 4 * (jd + 68569) / 146097

unfoldable pub within : ℕ → ℕ
within jd = jd + 68569 - (146097 * century jd + 3) / 4

abbrev pub base : ℕ → ℕ → ℕ
base n i = 100 * n + i - 100

abbrev pub day_of : ℕ → ℕ
day_of l2 = l2 - 1461 * year_within l2 / 4

-- The date of a day number, its year counted from -4800.
unfoldable pub shifted : ℕ → Date
shifted jd = at_year (base (century jd) (year_within (within jd))) (march_date (day_of (within jd)))

pub leap_year : (n i : ℕ) → 1 ≤ n → i < 99 → i % 4 ≡ 3 → is_leap (base n i + 1) ≡ true
leap_year n i hn hi h = ground arith

pub leap_century : (n : ℕ) → 1 ≤ n → n % 4 ≡ 0 → is_leap (base n 99 + 1) ≡ true
leap_century n hn h = ground arith

pub common_year : (n i : ℕ) → 1 ≤ n → i < 99 → i % 4 ≢ 3 → is_leap (base n i + 1) ≡ false
common_year n i hn hi h = ground arith

pub common_century : (n : ℕ) → 1 ≤ n → n % 4 ≢ 0 → is_leap (base n 99 + 1) ≡ false
common_century n hn h = ground arith
