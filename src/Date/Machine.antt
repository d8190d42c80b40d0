-- ===== src/Date/Machine.antt =====
-- doTheFliegelAndVanFlandernAlgorithm on Go's int, with its wrap-around, against exact arithmetic.
use mathlib.Core.Path.{ap₂}
use excelize.Common.{ℕ, suc, ◌+◌, ◌-◌, ◌*◌, ◌/◌, ◌^◌, ◌≤◌, ◌<◌, ◌≡◌, refl, ap, ◌∙◌, arith}
use excelize.Common.Int.{
  ℤ, pos_part, neg_part, sub_ℕ, max_int, wrap64, ◌+ℤ◌, ◌-ℤ◌, wrap64_lem, pos, negsuc,
}
use excelize.Date.{Day, year_of, julian_to_day}
use excelize.Date.Calendar.{Date}
use excelize.Date.Successor.{date_after, julian_to_day-date_after}

infixl 70 ◌*ℤ◌ ◌/ℤ◌
-- A product is never read but where one factor is a small constant.
unfoldable pub ◌*ℤ◌ : ℤ → ℤ → ℤ
a *ℤ b = wrap64 (
    sub_ℕ (pos_part a * pos_part b + neg_part a * neg_part b)
      (pos_part a * neg_part b + neg_part a * pos_part b))

-- Go's division by a positive constant, towards zero.
unfoldable pub ◌/ℤ◌ : ℤ → ℕ → ℤ
pos n /ℤ d = pos (n / d)
negsuc n /ℤ d = sub_ℕ 0 (suc n / d)

pub record GoDate : Type 0 where
  pub day : ℤ
  pub month : ℤ
  pub year : ℤ

unfoldable pub do_the_fliegel_and_van_flandern_algorithm : ℤ → GoDate
do_the_fliegel_and_van_flandern_algorithm jd =
    let l1 = jd +ℤ pos 68569 in
    let n = pos 4 *ℤ l1 /ℤ 146097 in
    let l2 = l1 -ℤ (pos 146097 *ℤ n +ℤ pos 3) /ℤ 4 in
    let i = pos 4000 *ℤ (l2 +ℤ pos 1) /ℤ 1461001 in
    let l3 = l2 -ℤ pos 1461 *ℤ i /ℤ 4 +ℤ pos 31 in
    let j = pos 80 *ℤ l3 /ℤ 2447 in
    let l4 = j /ℤ 11 in
    record {
      day = l3 -ℤ pos 2447 *ℤ j /ℤ 80;
      month = j +ℤ pos 2 -ℤ pos 12 *ℤ l4;
      year = pos 100 *ℤ (n -ℤ pos 49) +ℤ i +ℤ l4;
    }

go_epoch :
    do_the_fliegel_and_van_flandern_algorithm (pos 2440588)
    ≡ record { day = pos 1; month = pos 1; year = pos 1970 }
unfolding do_the_fliegel_and_van_flandern_algorithm ◌*ℤ◌ ◌/ℤ◌ ◌+ℤ◌ ◌-ℤ◌
go_epoch = refl

go_negative : (do_the_fliegel_and_van_flandern_algorithm (negsuc 99999)).month ≡ pos 2
unfolding do_the_fliegel_and_van_flandern_algorithm ◌*ℤ◌ ◌/ℤ◌ ◌+ℤ◌ ◌-ℤ◌
go_negative = refl

add_pos : (a b : ℕ) → a + b ≤ max_int → pos a +ℤ pos b ≡ pos (a + b)
unfolding ◌+ℤ◌
add_pos a b h = ground arith

pub sub_pos : (a b : ℕ) → b ≤ a → a ≤ max_int → pos a -ℤ pos b ≡ pos (a - b)
unfolding ◌-ℤ◌
sub_pos a b h k = ground arith

mul_pos : (a b : ℕ) → a * b ≤ max_int → pos a *ℤ pos b ≡ pos (a * b)
unfolding ◌*ℤ◌
mul_pos a b h =
    let p : a * b + 0 * 0 ≡ a * b = omega arith in
    let z : a * 0 + 0 * b ≡ 0 = omega arith in
    let e : sub_ℕ (a * b) 0 ≡ pos (a * b) = ground arith in
    ap wrap64 (ap₂ sub_ℕ p z ∙ e) ∙ wrap64_lem (pos (a * b)) (h, omega arith)

exact_year :
    (n i l : ℕ)
    → 100 * n + i + l ≤ max_int
    → pos 100 *ℤ (pos n -ℤ pos 49) +ℤ pos i +ℤ pos l ≡ sub_ℕ (100 * n + i + l) 4900
unfolding ◌+ℤ◌ ◌-ℤ◌ ◌*ℤ◌
exact_year n i l h = ground arith

div_pos : (a d : ℕ) → pos a /ℤ d ≡ pos (a / d)
unfolding ◌/ℤ◌
div_pos a d = refl

machine_exact :
    (jd : ℕ)
    → jd ≤ 2 ^ 49
    → do_the_fliegel_and_van_flandern_algorithm (pos jd)
      ≡ (let d = julian_to_day jd in record { day = pos d.day; month = pos d.month; year = d.year })
unfolding do_the_fliegel_and_van_flandern_algorithm julian_to_day year_of
machine_exact jd h =
    let l1 = jd + 68569 in
    let n = 4 * l1 / 146097 in
    let l2 = l1 - (146097 * n + 3) / 4 in
    let i = 4000 * (l2 + 1) / 1461001 in
    let l3 = l2 + 31 - 1461 * i / 4 in
    let j = 80 * l3 / 2447 in
    let l4 = j / 11 in
    let bn : n ≤ 2 ^ 40 = omega arith in
    let b2 : l2 < 36525 = omega arith in
    let q2 : (146097 * n + 3) / 4 ≤ l1 = omega arith in
    let bi : i ≤ 100 = omega arith in
    let q3 : 1461 * i / 4 ≤ l2 = omega arith in
    let s3 : l2 - 1461 * i / 4 + 31 ≡ l3 = omega arith in
    let b3 : l3 ≤ 40000 = omega arith in
    let qd : 2447 * j / 80 ≤ l3 = omega arith in
    let ql : 12 * l4 ≤ j + 2 = omega arith in
    let e1 = add_pos jd 68569 (omega arith) in
    let e2 = mul_pos 4 l1 (omega arith) in
    let e3 = mul_pos 146097 n (omega arith) in
    let e4 = add_pos (146097 * n) 3 (omega arith) in
    let e5 = sub_pos l1 ((146097 * n + 3) / 4) q2 (omega arith) in
    let e6 = add_pos l2 1 (omega arith) in
    let e7 = mul_pos 4000 (l2 + 1) (omega arith) in
    let e8 = mul_pos 1461 i (omega arith) in
    let e9 = sub_pos l2 (1461 * i / 4) q3 (omega arith) in
    let e10 = add_pos (l2 - 1461 * i / 4) 31 (omega arith) in
    let e11 = mul_pos 80 l3 (omega arith) in
    let e12 = mul_pos 2447 j (omega arith) in
    let e13 = sub_pos l3 (2447 * j / 80) qd (omega arith) in
    let e14 = add_pos j 2 (omega arith) in
    let e15 = mul_pos 12 l4 (omega arith) in
    let e16 = sub_pos (j + 2) (12 * l4) ql (omega arith) in
    rw (
      e1,
      e2,
      div_pos (4 * l1) 146097,
      e3,
      e4,
      div_pos (146097 * n + 3) 4,
      e5,
      e6,
      e7,
      div_pos (4000 * (l2 + 1)) 1461001,
      e8,
      div_pos (1461 * i) 4,
      e9,
      e10,
      s3,
      e11,
      div_pos (80 * l3) 2447,
      e12,
      div_pos (2447 * j) 80,
      e13,
      e14,
      div_pos j 11,
      e15,
      e16,
      exact_year n i l4 (omega arith),
    )

abbrev pub go_date : Date → GoDate
go_date d = record { day = pos d.day; month = pos d.month; year = sub_ℕ d.year 4800 }

-- For a day number from 0 to 2^49 the algorithm, which then never overflows, gives the date that
-- the rules of the Gregorian calendar reach, that many days after 24 November -4713. The calendar
-- here counts its years from -4800.
pub julian_to_gregorian-date_after :
    (jd : ℕ)
    → jd ≤ 2 ^ 49
    → do_the_fliegel_and_van_flandern_algorithm (pos jd) ≡ go_date (date_after jd)
julian_to_gregorian-date_after jd h =
    machine_exact jd h
    ∙ ap (λ (d : Day). record { day = pos d.day; month = pos d.month; year = d.year })
        (julian_to_day-date_after jd)
