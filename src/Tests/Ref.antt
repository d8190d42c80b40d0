-- ===== src/Tests/Ref.antt =====
-- Cell references at concrete inputs.
use mathlib.Core.List.{cons-ne-nil}
use excelize.Common.{
  ◌%◌, ◌≡◌, refl, ◌≢◌, ◌⊎◌, some, [], ◌++◌, arith, Bytes, codes, ◌>>=◌, invalid_column_name, ok,
  err,
}
use excelize.Common.Int.{word, signed64, ◌<ℤ◌, pos, negsuc}
use excelize.Ref.Cell.{
  split_cell_name, join_cell_name, cell_name_to_coordinates, coordinates_to_cell_name,
}
use excelize.Ref.Cell.Accepted.{cell_name_to_coordinates_sound}
use excelize.Ref.Cell.RoundTrip.{coordinates-name, split-join}
use excelize.Ref.Column.{column_name_to_number, column_number_to_name}
use excelize.Ref.Column.RoundTrip.{
  IsLetters, column_value, column_name_to_number-letters, number-name, name-number,
  column_name_to_number_refuses,
}
use excelize.Ref.Decimal.{atoi}

number-name_example : (column_number_to_name (pos 703) >>= column_name_to_number) ≡ ok (pos 703)
number-name_example = number-name 703 (omega arith) (omega arith)

name-number_example :
    (column_name_to_number (codes "aK") >>= column_number_to_name) ≡ ok (codes "AK")
name-number_example =
    name-number (codes "aK") (cons-ne-nil b'a' (codes "K")) (refl, (refl, tt)) (omega arith)

column_name_to_number_refuses_example :
    (((codes "A1" ≡ []) ⊎ (¬ IsLetters (codes "A1")))
      × (column_name_to_number (codes "A1") ≡ err (invalid_column_name (codes "A1"))))
    ⊎ ((codes "A1" ≢ [])
        × IsLetters (codes "A1")
        × (column_name_to_number (codes "A1") ≡ ok (signed64 (column_value (codes "A1") % word))))
column_name_to_number_refuses_example = column_name_to_number_refuses (codes "A1")

column_name_to_number-letters_example :
    column_name_to_number (codes "ZZZZZZZZZZZZZZ") ≡ ok (negsuc 6696602603409169449)
column_name_to_number-letters_example =
    column_name_to_number-letters (codes "ZZZZZZZZZZZZZZ")
      (cons-ne-nil b'Z' (codes "ZZZZZZZZZZZZZ"))
      (
        refl,
        (
          refl,
          (
            refl,
            (
              refl,
              (refl, (refl, (refl, (refl, (refl, (refl, (refl, (refl, (refl, (refl, tt)))))))))),
            ),
          ),
        ),
      )

coordinates-name_example :
    (coordinates_to_cell_name (pos 37) (pos 74) >>= cell_name_to_coordinates) ≡ ok (pos 37, pos 74)
coordinates-name_example =
    coordinates-name 37 74 (omega arith) (omega arith) (omega arith) (omega arith)

split-join_example :
    (join_cell_name (codes "ak") (pos 74) >>= split_cell_name) ≡ ok (codes "AK", pos 74)
split-join_example =
    split-join (codes "ak") 74 (cons-ne-nil b'a' (codes "k")) (refl, (refl, tt)) (omega arith)
      (omega arith)

ak74_read : cell_name_to_coordinates (codes "aK074") ≡ ok (pos 37, pos 74)
unfolding cell_name_to_coordinates split_cell_name atoi column_name_to_number
ak74_read = refl

cell_name_to_coordinates_sound_example :
    (l d : Bytes) × (codes "aK074" ≡ l ++ d)
    × (l ≢ [])
    × IsLetters l
    × (pos 37 ≡ signed64 (column_value l % word))
    × (atoi d ≡ some (pos 74))
    × (pos 0 <ℤ pos 74)
cell_name_to_coordinates_sound_example =
    cell_name_to_coordinates_sound (codes "aK074") (pos 37) (pos 74) ak74_read
