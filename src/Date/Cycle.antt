-- ===== src/Date/Cycle.antt =====
-- The algorithm steps through the calendar. Its divisions split a day number into a century, a year
-- from March to February within it, and a day within that year; each split is checked on its range.
use excelize.Common.{
  ℕ, zero, suc, ◌+◌, ◌-◌, ◌*◌, ◌/◌, ◌%◌, ◌≤◌, ◌<◌, ◌≡◌, refl, sym, ap, ◌∙◌, Bool, true, false, ◌&&◌,
  arith, ltb, leb, ◌==◌,
}
use excelize.Date.Calendar.{Date, next_in}

module _ (test : ℕ → Bool) where
  -- The test holds of the `count` numbers from `start` on.
  holds_from : ℕ → ℕ → Bool
  holds_from start zero = true
  holds_from start (suc count) = test start && holds_from (suc start) count

  holds_from_sound :
      (start count offset : ℕ)
      → offset < count
      → holds_from start count ≡ true
      → test (start + offset) ≡ true
  unfolding holds_from
  holds_from_sound start zero offset lt h = absurd (omega arith)
  holds_from_sound start (suc count) zero lt h =
      let e : start + 0 ≡ start = omega arith in rw e (ground arith)
  holds_from_sound start (suc count) (suc offset) lt h =
      let e : start + suc offset ≡ suc start + offset = omega arith in
      rw e (holds_from_sound (suc start) count offset (omega arith) (ground arith))

  holds_below : ℕ → Bool
  unfolding holds_from
  holds_below count = holds_from 0 count

  holds_below_sound : (count n : ℕ) → n < count → holds_below count ≡ true → test n ≡ true
  unfolding holds_below
  holds_below_sound count n lt h =
      let e : n ≡ 0 + n = omega arith in ap test e ∙ holds_from_sound 0 count n lt h

-- The year of a day of a century, from 0.
unfoldable pub year_within : ℕ → ℕ
year_within l2 = 4000 * (l2 + 1) / 1461001

year_fits : ℕ → Bool
unfolding year_within
year_fits l2 = leb (1461 * year_within l2 / 4) l2 && ltb l2 (1461 * (year_within l2 + 1) / 4)

abbrev side : ℕ
side = 192

year_table : holds_below (λ a. holds_below (λ b. year_fits (a * side + b)) side) side ≡ true
unfolding holds_below year_fits
year_table = refl

year_fits_lem : (l2 : ℕ) → l2 < 36525 → year_fits l2 ≡ true
year_fits_lem l2 h =
    let row : holds_below (λ b. year_fits (l2 / side * side + b)) side ≡ true =
      holds_below_sound (λ a. holds_below (λ b. year_fits (a * side + b)) side) side (l2 / side)
        (omega arith) year_table in
    let whole : l2 / side * side + l2 % side ≡ l2 = omega arith in
    ap year_fits (sym whole)
    ∙ holds_below_sound (λ b. year_fits (l2 / side * side + b)) side (l2 % side) (omega arith) row

pub year_within_bounds :
    (l2 : ℕ)
    → l2 < 36525
    → (1461 * year_within l2 / 4 ≤ l2) × (l2 < 1461 * (year_within l2 + 1) / 4)
unfolding year_fits
year_within_bounds l2 h = ground (arith, year_fits_lem l2 h)

-- The day and month of a day of a year that begins in March; the year is 1 from January on.
unfoldable pub march_date : ℕ → Date
march_date e =
    let j = 80 * (e + 31) / 2447 in
    record { day = e + 31 - 2447 * j / 80; month = j + 2 - 12 * (j / 11); year = j / 11 }

same_date : Date → Date → Bool
same_date a b = (a.day == b.day) && (a.month == b.month) && (a.year == b.year)

march_steps : ℕ → Bool
unfolding march_date same_date
march_steps e =
    same_date (march_date (suc e)) (next_in true (march_date e))
    && same_date (march_date (suc e)) (next_in false (march_date e))

march_table : holds_below march_steps 364 ≡ true
unfolding holds_below march_steps
march_table = refl

eq_of_same_date : (a b : Date) → same_date a b ≡ true → a ≡ b
unfolding same_date
eq_of_same_date a b h = ground arith

pub march_date-suc :
    (leap : Bool) (e : ℕ) → e < 364 → march_date (suc e) ≡ next_in leap (march_date e)
unfolding march_steps
march_date-suc true e h =
    eq_of_same_date _ _ (ground (arith, holds_below_sound march_steps 364 e h march_table))
march_date-suc false e h =
    eq_of_same_date _ _ (ground (arith, holds_below_sound march_steps 364 e h march_table))
