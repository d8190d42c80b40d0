-- ===== src/Ref/Cell.antt =====
-- SplitCellName, JoinCellName, CellNameToCoordinates and CoordinatesToCellName (lib.go).
pub mod RoundTrip
pub mod Accepted
use excelize.Common.{
  ℕ, suc, ◌-◌, ◌≡◌, refl, Bool, false, not, ◌||◌, Option, none, some, [], ◌∷◌, ◌++◌, ltb, ◌==◌,
  if◌then◌else◌, length, take, drop, Bytes, codes, is_alpha, upper, Result, ◌>>=◌,
  invalid_column_name, invalid_row_number, invalid_cell_name, invalid_coordinates,
  invalid_coordinates_by, cannot_convert, ok, err, fault,
}
use excelize.Common.Int.{ℤ, ltb_ℤ, pos, negsuc}
use excelize.Ref.Column.{column_name_to_number, column_number_to_name}
use excelize.Ref.Decimal.{itoa, atoi}

-- `strings.LastIndexFunc(cell, alpha)`; none stands for -1.
unfoldable pub last_alpha : Bytes → Option ℕ
last_alpha [] = none
last_alpha (c ∷ s) = elim (last_alpha s) [
  | some i ↦ some (suc i)
  | none ↦ if is_alpha c then some 0 else none
]

-- `strings.IndexFunc(cell, alpha) == 0`.
unfoldable pub starts_alpha : Bytes → Bool
starts_alpha [] = false
starts_alpha (c ∷ s) = is_alpha c

-- The guard on the row, with the split texts at hand.
unfoldable pub accept_row : Bytes → Bytes → Option ℤ → Result (Bytes × ℤ)
accept_row cell col none = err (invalid_cell_name cell)
accept_row cell col (some row) =
    if ltb_ℤ (pos 0) row then ok (col, row) else err (invalid_cell_name cell)

unfoldable pub split_at : Bytes → Option ℕ → Result (Bytes × ℤ)
unfolding accept_row
split_at cell none = err (invalid_cell_name cell)
split_at cell (some i) =
    if ltb i (length cell - 1)
    then accept_row cell (take (suc i) cell) (atoi (drop (suc i) cell))
    else err (invalid_cell_name cell)

unfoldable pub split_cell_name : Bytes → Result (Bytes × ℤ)
unfolding last_alpha starts_alpha split_at
split_cell_name cell =
    if starts_alpha cell then split_at cell (last_alpha cell) else err (invalid_cell_name cell)

-- The `strings.Map` of JoinCellName: letters in capitals, all else dropped.
unfoldable pub norm_col : Bytes → Bytes
norm_col [] = []
norm_col (c ∷ s) = if is_alpha c then upper c ∷ norm_col s else norm_col s

unfoldable pub join_cell_name : Bytes → ℤ → Result Bytes
unfolding norm_col
join_cell_name col row =
    if (length col == 0) || not (length col == length (norm_col col))
    then err (invalid_column_name col)
    else if ltb_ℤ row (pos 1)
    then err (invalid_row_number row)
    else ok (norm_col col ++ itoa row)

-- An error of a callee is wrapped in the text `cannot convert cell …`.
unfoldable pub wrap_err {ℓ} : {A : Type ℓ} → Bytes → Result A → Result A
wrap_err cell (ok a) = ok a
wrap_err cell (err e) = err (cannot_convert cell e)
wrap_err cell fault = fault

unfoldable pub cell_name_to_coordinates : Bytes → Result (ℤ × ℤ)
unfolding wrap_err
cell_name_to_coordinates cell = do
  (colname, row) ← wrap_err cell (split_cell_name cell)
  col ← wrap_err cell (column_name_to_number colname)
  ok (col, row)

unfoldable pub coordinates_to_cell_name : ℤ → ℤ → Result Bytes
coordinates_to_cell_name col row =
    if ltb_ℤ col (pos 1) || ltb_ℤ row (pos 1)
    then err (invalid_coordinates col row)
    else elim (column_number_to_name col) [
      | ok colname ↦ ok (colname ++ itoa row)
      | err e ↦ err (invalid_coordinates_by col row e)
      | fault ↦ fault
    ]

-- What a caller that drops the error works with.
unfoldable pub coordinates_or : Result (ℤ × ℤ) → ℤ × ℤ
coordinates_or (ok p) = p
coordinates_or (err e) = (negsuc 0, negsuc 0)
coordinates_or fault = (negsuc 0, negsuc 0)

unfoldable pub split_or : Result (Bytes × ℤ) → Bytes × ℤ
split_or (ok p) = p
split_or (err e) = ([], negsuc 0)
split_or fault = ([], negsuc 0)

unfoldable pub name_or : Result Bytes → Bytes
name_or (ok s) = s
name_or (err e) = []
name_or fault = []

ak74 : split_cell_name (codes "AK74") ≡ ok (codes "AK", pos 74)
unfolding split_cell_name atoi
ak74 = refl

-- A sign before the row is read by Atoi and passes.
signed_row : cell_name_to_coordinates (codes "A+5") ≡ ok (pos 1, pos 5)
unfolding cell_name_to_coordinates split_cell_name atoi column_name_to_number
signed_row = refl

-- A digit among the letters passes SplitCellName, and stops ColumnNameToNumber.
digit_inside : split_cell_name (codes "A1B2") ≡ ok (codes "A1B", pos 2)
unfolding split_cell_name atoi
digit_inside = refl
