-- ===== src/Ref/Decimal.antt =====
-- What lib.go uses of strconv: `Itoa` (which `%d` prints too) and `Atoi`.
pub mod RoundTrip
use Prim.Native.Nat.{min}
use excelize.Common.{
  ℕ, zero, suc, ◌+◌, ◌-◌, ◌*◌, ◌/◌, ◌%◌, ◌^◌, ◌≡◌, refl, Option, none, some, [], ◌∷◌, ltb, leb,
  ◌==◌, if◌then◌else◌, Bytes, codes, is_digit,
}
use excelize.Common.Int.{ℤ, sub_ℕ, word, max_int, pos, negsuc}

-- The digits of a number before those written so far; one round for each digit.
unfoldable pub emit : ℕ → ℕ → Bytes → Bytes
emit zero n out = out
emit (suc fuel) n out =
    let more = emit fuel (n / 10) ((b'0' + n % 10) ∷ out) in
    if leb n 9 then (b'0' + n) ∷ out else more

-- A number has no more digits than its successor counts rounds.
unfoldable pub format_nat : ℕ → Bytes
unfolding emit
format_nat n = emit (suc n) n []

-- `strconv.Itoa`.
unfoldable pub itoa : ℤ → Bytes
unfolding format_nat
itoa (pos n) = format_nat n
itoa (negsuc n) = b'-' ∷ format_nat (suc n)

-- The digits behind a number read so far; none at a byte that is no digit.
unfoldable pub scan : Bytes → ℕ → Option ℕ
scan [] n = some n
scan (c ∷ s) n = if is_digit c then scan s (n * 10 + (c - b'0')) else none

unfoldable pub digits : Bytes → Option ℕ
unfolding scan
digits [] = none
digits (c ∷ s) = scan (c ∷ s) 0

-- The range check of `strconv.Atoi`; a number out of range is an error.
unfoldable pub in_range_pos : Option ℕ → Option ℤ
in_range_pos none = none
in_range_pos (some n) = if leb n max_int then some (pos n) else none

unfoldable pub in_range_neg : Option ℕ → Option ℤ
in_range_neg none = none
in_range_neg (some zero) = some (pos 0)
in_range_neg (some (suc n)) = if leb n max_int then some (negsuc n) else none

-- `strconv.Atoi`: a sign may stand before the digits.
unfoldable pub atoi : Bytes → Option ℤ
unfolding digits in_range_pos in_range_neg
atoi [] = none
atoi (c ∷ s) =
    if c == b'-'
    then in_range_neg (digits s)
    else if c == b'+'
    then in_range_pos (digits s)
    else in_range_pos (digits (c ∷ s))

-- The number that Atoi returns beside its error, which some callers drop: 0 where the syntax is
-- wrong, the nearest int where the number is out of range. The scan stops past 64 bits.
unfoldable pub scan_clamped : Bytes → ℕ → ℕ
scan_clamped [] n = n
scan_clamped (c ∷ s) n =
    let next = n * 10 + (c - b'0') in
    let rest = scan_clamped s next in
    if is_digit c then (if ltb next word then rest else next) else 0

unfoldable pub clamped : Bytes → ℕ
unfolding scan_clamped
clamped [] = 0
clamped (c ∷ s) = scan_clamped (c ∷ s) 0

unfoldable pub atoi_value : Bytes → ℤ
unfolding clamped
atoi_value [] = pos 0
atoi_value (c ∷ s) =
    if c == b'-'
    then sub_ℕ 0 (min (clamped s) (2 ^ 63))
    else if c == b'+'
    then pos (min (clamped s) max_int)
    else pos (min (clamped (c ∷ s)) max_int)

atoi_runs : atoi (codes "120") ≡ some (pos 120)
unfolding atoi
atoi_runs = refl

itoa_runs : itoa (negsuc 1233) ≡ codes "-1234"
unfolding itoa
itoa_runs = refl
