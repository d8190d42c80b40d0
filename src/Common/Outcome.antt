-- ===== src/Common/Outcome.antt =====
-- What a call of the Go code comes to: a value with a nil error, an error, or a run-time panic.
use excelize.Common.Int.{ℤ}
use excelize.Common.Text.{Bytes}

-- The errors that the code builds, by the format string and with its arguments.
pub data Error : Type 0 where
  invalid_column_name : Bytes → Error
  invalid_row_number : ℤ → Error
  invalid_cell_name : Bytes → Error
  incorrect_column_number : ℤ → Error
  invalid_coordinates : ℤ → ℤ → Error
  invalid_coordinates_by : ℤ → ℤ → Error → Error
  cannot_convert : Bytes → Error → Error
  invalid_area : Bytes → Error
  sheet_not_exist : Bytes → Error
  invalid_worksheet_index : Error
  view_index_out_of_range : ℤ → Error
  field_too_long : Bytes → Error
  invalid_link_type : Bytes → Error
  too_many_hyperlinks : Error
  incorrect_column_index : Bytes → Error
  incorrect_number_of_tokens : Bytes → Error
  unknown_operator : Bytes → Error
  not_valid_for_blanks : Bytes → Bytes → Error

pub data Result {ℓ} (A : Type ℓ) : Type ℓ where
  ok : A → Result A
  err : Error → Result A
  fault : Result A

infixl 5 ◌>>=◌
abbrev pub ◌>>=◌ {ℓ κ} : {A : Type ℓ} {B : Type κ} → Result A → (A → Result B) → Result B
ok a >>= f = f a
err e >>= f = err e
fault >>= f = fault
