-- ===== src/Date.antt =====
-- The Julian day algorithm of date.go.
pub mod Calendar
pub mod Cycle
pub mod Steps
pub mod Successor
pub mod Machine
use excelize.Common.{ℕ, ◌+◌, ◌-◌, ◌*◌, ◌/◌, ◌≡◌, refl}
use excelize.Common.Int.{ℤ, sub_ℕ, pos}

-- The algorithm in exact arithmetic, for a day number that is not negative; the code itself, on
-- Go's int, is in Date/Machine.
pub record Day : Type 0 where
  pub day : ℕ
  pub month : ℕ
  pub year : ℤ

-- 100*(n-49) + i + l, as an integer.
unfoldable pub year_of : ℕ → ℕ → ℕ → ℤ
year_of n i l = sub_ℕ (100 * n + i + l) 4900

unfoldable pub julian_to_day : ℕ → Day
unfolding year_of
julian_to_day jd =
    let l1 = jd + 68569 in
    let n = 4 * l1 / 146097 in
    let l2 = l1 - (146097 * n + 3) / 4 in
    let i = 4000 * (l2 + 1) / 1461001 in
    let l3 = l2 + 31 - 1461 * i / 4 in
    let j = 80 * l3 / 2447 in
    let l4 = j / 11 in
    record { day = l3 - 2447 * j / 80; month = j + 2 - 12 * l4; year = year_of n i l4 }

epoch : julian_to_day 2440588 ≡ record { day = 1; month = 1; year = pos 1970 }
unfolding julian_to_day
epoch = refl
