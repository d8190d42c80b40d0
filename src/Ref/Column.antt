-- ===== src/Ref/Column.antt =====
-- ColumnNameToNumber and ColumnNumberToName (lib.go).
pub mod RoundTrip
use excelize.Common.{
  ℕ, zero, suc, ◌+◌, ◌-◌, ◌*◌, ◌/◌, ◌%◌, ◌≡◌, refl, List, [], ◌∷◌, Option, none, some, Bytes, codes,
  leb, ltb, ◌==◌, if◌then◌else◌, is_upper, is_lower, reverse, Result, ok, err, invalid_column_name,
  incorrect_column_number, arith,
}
use excelize.Common.Int.{ℤ, pos, negsuc, word, signed64}

-- One pass of the loop of ColumnNameToNumber over the bytes from the last to the first; `col` and
-- `multi` are the patterns of 64 bits of the two ints.
unfoldable pub number_loop : Bytes → ℕ → ℕ → Option ℕ
number_loop [] col multi = some col
number_loop (r ∷ rest) col multi =
    if is_upper r
    then number_loop rest ((col + (r - b'A' + 1) * multi) % word) (multi * 26 % word)
    else if is_lower r
    then number_loop rest ((col + (r - b'a' + 1) * multi) % word) (multi * 26 % word)
    else none

unfoldable pub number_result : Bytes → Option ℕ → Result ℤ
number_result name none = err (invalid_column_name name)
number_result name (some col) = ok (signed64 col)

unfoldable pub column_name_to_number : Bytes → Result ℤ
unfolding number_loop number_result
column_name_to_number [] = err (invalid_column_name [])
column_name_to_number (c ∷ s) = number_result (c ∷ s) (number_loop (reverse (c ∷ s)) 0 1)

-- `for num > 0 { … }`: `num` falls in each round, so `num` rounds are enough.
unfoldable pub name_loop : ℕ → ℕ → Bytes → Bytes
name_loop zero num col = col
name_loop (suc fuel) num col =
    let more = name_loop fuel ((num - 1) / 26) (((num - 1) % 26 + 65) ∷ col) in
    if ltb 0 num then more else col

unfoldable pub column_number_to_name : ℤ → Result Bytes
unfolding name_loop
column_number_to_name (negsuc n) = err (incorrect_column_number (negsuc n))
column_number_to_name (pos zero) = err (incorrect_column_number (pos 0))
column_number_to_name (pos (suc n)) = ok (name_loop (suc n) (suc n) [])

ak_number : column_name_to_number (codes "AK") ≡ ok (pos 37)
unfolding column_name_to_number
ak_number = refl

ak_name : column_number_to_name (pos 37) ≡ ok (codes "AK")
unfolding column_number_to_name
ak_name = refl

-- Fourteen letters are past 2^63: the int wraps around to a negative column.
long_name : column_name_to_number (codes "ZZZZZZZZZZZZZZ") ≡ ok (negsuc 6696602603409169449)
unfolding column_name_to_number
long_name = refl
