-- ===== src/Date/Successor.antt =====
-- The successor of a day number has the successor of its date.
-- The first day of a century, from the first day of the century 0.
use mathlib.Core.Path.{ap₂}
use native.Mathlib.Decide.{ℕ_discrete, dec_lt}
use excelize.Common.{
  ℕ, zero, suc, ◌+◌, ◌-◌, ◌*◌, ◌/◌, ◌%◌, ◌≤◌, ◌<◌, ◌≡◌, refl, sym, ap, ◌∙◌, ◌≢◌, inl, inr, true,
  arith,
}
use excelize.Common.Int.{sub_ℕ}
use excelize.Date.{Day, julian_to_day}
use excelize.Date.Calendar.{is_leap, Date, next_day}
use excelize.Date.Cycle.{year_within, year_within_bounds, march_date}
use excelize.Date.Steps.{
  at_year, inside_year, over_year, century, within, base, day_of, shifted, leap_year, leap_century,
  common_year, common_century,
}

abbrev starts : ℕ → ℕ
starts n = (146097 * n + 3) / 4

core_leap :
    (n l2 i : ℕ)
    → 1 ≤ n
    → 1461 * i / 4 + 364 ≡ l2
    → suc l2 < 1461 * (i + 1) / 4
    → suc l2 + starts n < starts (n + 1)
    → is_leap (base n i + 1) ≡ true
core_leap n l2 i hn he hi hl = elim (dec_lt i 99) [
  | yes lt ↦ leap_year n i hn lt (omega arith)
  | no ge ↦ let last : i ≡ 99 = omega arith in rw last (leap_century n hn (omega arith))
]

core_same :
    (n l2 i : ℕ)
    → 1 ≤ n
    → 1461 * i / 4 ≤ l2
    → suc l2 < 1461 * (i + 1) / 4
    → suc l2 + starts n < starts (n + 1)
    → at_year (base n i) (march_date (suc l2 - 1461 * i / 4))
      ≡ next_day (at_year (base n i) (march_date (l2 - 1461 * i / 4)))
core_same n l2 i hn lo hi hl =
    let day : suc l2 - 1461 * i / 4 ≡ suc (l2 - 1461 * i / 4) = omega arith in
    ap (λ e. at_year (base n i) (march_date e)) day
    ∙ inside_year (base n i) (l2 - 1461 * i / 4) (elim (dec_lt (l2 - 1461 * i / 4) 364) [
      | yes lt ↦ inl lt
      | no ge ↦ inr (omega arith, core_leap n l2 i hn (omega arith) hi hl)
    ])

core_next :
    (n l2 i : ℕ)
    → 1 ≤ n
    → 1461 * i / 4 ≤ l2
    → suc l2 ≡ 1461 * (i + 1) / 4
    → suc l2 + starts n < starts (n + 1)
    → at_year (base n (i + 1)) (march_date 0)
      ≡ next_day (at_year (base n i) (march_date (l2 - 1461 * i / 4)))
core_next n l2 i hn lo hi hl =
    let year : base n (i + 1) ≡ base n i + 1 = omega arith in
    ap (λ k. at_year k (march_date 0)) year
    ∙ over_year (base n i) (l2 - 1461 * i / 4) (elim (ℕ_discrete (i % 4) 3) [
      | yes leap ↦ inr (omega arith, leap_year n i hn (omega arith) leap)
      | no common ↦ inl (omega arith, common_year n i hn (omega arith) common)
    ])

core_century :
    (n l2 i : ℕ)
    → 1 ≤ n
    → 1461 * i / 4 ≤ l2
    → l2 < 1461 * (i + 1) / 4
    → suc l2 + starts n ≡ starts (n + 1)
    → at_year (base (suc n) 0) (march_date 0)
      ≡ next_day (at_year (base n i) (march_date (l2 - 1461 * i / 4)))
core_century n l2 i hn lo hi hl =
    let last : i ≡ 99 = omega arith in
    let year : base (suc n) 0 ≡ base n 99 + 1 = omega arith in
    rw last (
      ap (λ k. at_year k (march_date 0)) year
      ∙ over_year (base n 99) (l2 - 1461 * 99 / 4) (elim (ℕ_discrete (n % 4) 0) [
        | yes leap ↦ inr (omega arith, leap_century n hn leap)
        | no common ↦ inl (omega arith, common_century n hn common)
      ]))

-- The century that the next day lies in, and the day of it.
date_at : ℕ → ℕ → Date
date_at n l2 = at_year (base n (year_within l2)) (march_date (l2 - 1461 * year_within l2 / 4))

date_at-suc :
    (n l2 : ℕ)
    → 1 ≤ n
    → suc l2 + starts n < starts (n + 1)
    → date_at n (suc l2) ≡ next_day (date_at n l2)
unfolding date_at
date_at-suc n l2 hn hl =
    let (lo, hi) = year_within_bounds l2 (omega arith) in
    let (lo', hi') = year_within_bounds (suc l2) (omega arith) in
    elim (ℕ_discrete (year_within (suc l2)) (year_within l2)) [
      | yes same ↦
          ap (λ i. at_year (base n i) (march_date (suc l2 - 1461 * i / 4))) same
          ∙ core_same n l2 (year_within l2) hn lo (rw same at hi') hl
      | no other ↦
          let next : year_within (suc l2) ≡ year_within l2 + 1 = omega arith in
          let first : suc l2 - 1461 * year_within (suc l2) / 4 ≡ 0 = omega arith in
          ap₂ (λ i e. at_year (base n i) (march_date e)) next first
          ∙ core_next n l2 (year_within l2) hn lo (omega arith) hl
    ]

date_at-century :
    (n l2 : ℕ)
    → 1 ≤ n
    → suc l2 + starts n ≡ starts (n + 1)
    → date_at (suc n) 0 ≡ next_day (date_at n l2)
unfolding date_at year_within
date_at-century n l2 hn hl =
    let (lo, hi) = year_within_bounds l2 (omega arith) in
    core_century n l2 (4000 * (l2 + 1) / 1461001) hn (unfold year_within in lo)
      (unfold year_within in hi) hl

shifted-date_at : (jd : ℕ) → shifted jd ≡ date_at (century jd) (within jd)
unfolding shifted date_at
shifted-date_at jd = refl

century_pos : (jd : ℕ) → 1 ≤ century jd
unfolding century
century_pos jd = omega arith

within_same :
    (jd : ℕ)
    → century (suc jd) ≡ century jd
    → (within (suc jd) ≡ suc (within jd))
      × (suc (within jd) + starts (century jd) < starts (century jd + 1))
unfolding century within
within_same jd h = (omega arith, omega arith)

within_next :
    (jd : ℕ)
    → century (suc jd) ≢ century jd
    → (century (suc jd) ≡ suc (century jd))
      × (within (suc jd) ≡ 0)
      × (suc (within jd) + starts (century jd) ≡ starts (century jd + 1))
unfolding century within
within_next jd h = (omega arith, omega arith, omega arith)

shifted-suc : (jd : ℕ) → shifted (suc jd) ≡ next_day (shifted jd)
shifted-suc jd =
    shifted-date_at (suc jd)
    ∙ (elim (ℕ_discrete (century (suc jd)) (century jd)) [
      | yes same ↦
          let (day, lt) = within_same jd same in
          ap₂ date_at same day ∙ date_at-suc (century jd) (within jd) (century_pos jd) lt
      | no other ↦
          let (n, day, eq) = within_next jd other in
          ap₂ date_at n day ∙ date_at-century (century jd) (within jd) (century_pos jd) eq
    ])
    ∙ ap next_day (sym (shifted-date_at jd))

-- The record that the algorithm returns for a date.
abbrev pub to_day : Date → Day
to_day d = record { day = d.day; month = d.month; year = sub_ℕ d.year 4800 }

year_same : (n i l : ℕ) → 1 ≤ n → sub_ℕ (100 * n + i + l) 4900 ≡ sub_ℕ (base n i + l) 4800
year_same n i l h = ground arith

day_same : (l2 : ℕ) → l2 < 36525 → l2 + 31 - 1461 * year_within l2 / 4 ≡ day_of l2 + 31
day_same l2 h = omega (arith, year_within_bounds l2 h)

within-lt : (jd : ℕ) → within jd < 36525
unfolding within century
within-lt jd = omega arith

-- The result of the algorithm from the day of the year.
from_parts : ℕ → ℕ → ℕ → Day
from_parts n i l3 =
    let j = 80 * l3 / 2447 in
    record {
      day = l3 - 2447 * j / 80;
      month = j + 2 - 12 * (j / 11);
      year = sub_ℕ (100 * n + i + j / 11) 4900;
    }

julian_to_day-shifted : (jd : ℕ) → julian_to_day jd ≡ to_day (shifted jd)
unfolding julian_to_day shifted march_date century within year_within from_parts
julian_to_day-shifted jd =
    ap (from_parts (century jd) (year_within (within jd))) (day_same (within jd) (within-lt jd))
    ∙ ap
        (λ y.
          let j = 80 * (day_of (within jd) + 31) / 2447 in
          record {
            day = day_of (within jd) + 31 - 2447 * j / 80;
            month = j + 2 - 12 * (j / 11);
            year = y;
          })
        (year_same (century jd) (year_within (within jd))
          (80 * (day_of (within jd) + 31) / 2447 / 11) (century_pos jd))

-- The date of the day number 0 is 24 November -4713.
abbrev pub day_zero : Date
day_zero = record { day = 24; month = 11; year = 87 }

-- The date a number of days later, by the rules of the calendar.
pub date_after : ℕ → Date
date_after zero = day_zero
date_after (suc n) = next_day (date_after n)

shifted-date_after : (jd : ℕ) → shifted jd ≡ date_after jd
unfolding date_after
shifted-date_after zero = unfold shifted century within year_within march_date in refl
shifted-date_after (suc jd) = shifted-suc jd ∙ ap next_day (shifted-date_after jd)

pub julian_to_day-date_after : (jd : ℕ) → julian_to_day jd ≡ to_day (date_after jd)
julian_to_day-date_after jd = julian_to_day-shifted jd ∙ ap to_day (shifted-date_after jd)
