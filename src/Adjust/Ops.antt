-- ===== src/Adjust/Ops.antt =====
-- adjustHelper (adjust.go), and the operations that call it: InsertRow, RemoveRow, DuplicateRowTo
-- (rows.go), InsertCol and RemoveCol (col.go). On an error the sheet that is left is not modelled.
use excelize.Adjust.Check.{check_sheet, check_row}
use excelize.Adjust.Dimensions.{
  adjust_col_dimensions, ajust_single_row_dimensions, adjust_row_dimensions,
}
use excelize.Adjust.Filter.{adjust_auto_filter}
use excelize.Adjust.Links.{Linked, adjust_hyperlinks}
use excelize.Adjust.Merged.{adjust_merge_cells}
use excelize.Common.{
  ℕ, suc, Bool, true, false, ◌||◌, Option, none, some, List, [], ◌∷◌, ◌++◌, if◌then◌else◌, length,
  get_elem?, set, Bytes, str_eq, Result, ◌>>=◌, invalid_row_number, ok, err, fault,
}
use excelize.Common.Int.{ℤ, ◌+ℤ◌, ltb_ℤ, leb_ℤ, eqb_ℤ, pos, negsuc}
use excelize.Ref.Cell.{split_cell_name, split_or}
use excelize.Ref.Column.{column_name_to_number}
use excelize.Sheet.Data.{Cell, Row, Worksheet}

unfoldable pub adjust_dimensions : Bool → ℤ → ℤ → Worksheet → Worksheet
unfolding adjust_row_dimensions adjust_col_dimensions
adjust_dimensions dir num offset xlsx = record xlsx {
  rows =
      if dir
      then adjust_row_dimensions xlsx.rows num offset
      else adjust_col_dimensions xlsx.rows num offset;
}

unfoldable pub adjust_helper : Bool → ℤ → ℤ → Linked → Result Linked
unfolding adjust_dimensions adjust_hyperlinks adjust_merge_cells adjust_auto_filter check_sheet
    check_row
adjust_helper dir num offset x = do
  linked ←
      adjust_hyperlinks dir num offset
        (record x { sheet = adjust_dimensions dir num offset x.sheet })
  merged ← adjust_merge_cells dir num offset linked.sheet
  filtered ← adjust_auto_filter dir num offset merged
  checked ← check_row (check_sheet filtered)
  ok (record linked { sheet = checked })

unfoldable pub insert_row : ℤ → Linked → Result Linked
unfolding adjust_helper
insert_row row x =
    if ltb_ℤ row (pos 1) then err (invalid_row_number row) else adjust_helper true row (pos 1) x

-- The rows without the first that has the number; none when there is no such row.
unfoldable pub without_row : ℤ → List Row → Option (List Row)
without_row row [] = none
without_row row (d ∷ ds) =
    if eqb_ℤ d.r row
    then some ds
    else elim (without_row row ds) [ none ↦ none | some rest ↦ some (d ∷ rest) ]

unfoldable pub remove_row : ℤ → Linked → Result Linked
unfolding adjust_helper without_row
remove_row row x =
    if ltb_ℤ row (pos 1)
    then err (invalid_row_number row)
    else if ltb_ℤ (pos (length x.sheet.rows)) row
    then ok x
    else elim (without_row row x.sheet.rows) [
      | none ↦ ok x
      | some rest ↦
          adjust_helper true row (negsuc 0) (record x { sheet = record x.sheet { rows = rest } })
    ]

unfoldable pub insert_col : Bytes → Linked → Result Linked
unfolding adjust_helper
insert_col col x = column_name_to_number col >>= λ num. adjust_helper false num (pos 1) x

-- The cells of a row without the first whose column text is `col`.
unfoldable pub without_col : Bytes → List Cell → List Cell
unfolding split_or
without_col col [] = []
without_col col (x ∷ xs) =
    if str_eq (split_or (split_cell_name x.r)).0 col then xs else x ∷ without_col col xs

unfoldable pub rows_without_col : Bytes → List Row → List Row
unfolding without_col
rows_without_col col [] = []
rows_without_col col (d ∷ ds) = record d { c = without_col col d.c } ∷ rows_without_col col ds

unfoldable pub remove_col : Bytes → Linked → Result Linked
unfolding adjust_helper rows_without_col
remove_col col x = do
  num ← column_name_to_number col
  adjust_helper false num (negsuc 0)
      (record x { sheet = record x.sheet { rows = rows_without_col col x.sheet.rows } })

-- The index of the first row that has the number.
unfoldable pub index_of_row : ℤ → List Row → Option ℕ
index_of_row row [] = none
index_of_row row (d ∷ ds) =
    if eqb_ℤ d.r row
    then some 0
    else elim (index_of_row row ds) [ none ↦ none | some i ↦ some (suc i) ]

-- The copy has the fields that the row had, and the cells that the slice, which it shares with the
-- row, has once the rows below have been renamed.
unfoldable pub copied_row : ℕ → ℤ → List Row → Option Row
unfolding adjust_row_dimensions
copied_row i row2 rows = elim (get_elem? rows i) [
  | none ↦ none
  | some d ↦ elim (get_elem? (adjust_row_dimensions rows row2 (pos 1)) i) [
    | none ↦ none
    | some moved ↦ some (record d { c = moved.c })
  ]
]

unfoldable pub place_row : Row → ℤ → List Row → List Row
unfolding index_of_row ajust_single_row_dimensions
place_row row_copy row2 rows = elim (index_of_row row2 rows) [
  | some idx2 ↦ set rows idx2 (ajust_single_row_dimensions row_copy row2)
  | none ↦
      if leb_ℤ row2 (pos (length rows))
      then rows
      else rows ++ ajust_single_row_dimensions row_copy row2 ∷ []
]

unfoldable pub duplicate_row_to : ℤ → ℤ → Linked → Result Linked
unfolding adjust_helper index_of_row copied_row place_row
duplicate_row_to row row2 x =
    if ltb_ℤ row (pos 1)
    then err (invalid_row_number row)
    else if ltb_ℤ (pos (length x.sheet.rows)) row || ltb_ℤ row2 (pos 1) || eqb_ℤ row row2
    then ok x
    else elim (index_of_row row x.sheet.rows) [
      | none ↦ ok x
      | some i ↦ elim (copied_row i row2 x.sheet.rows) [
        | none ↦ fault
        | some row_copy ↦ adjust_helper true row2 (pos 1) x >>= λ y.
            ok (record y { sheet = record y.sheet { rows = place_row row_copy row2 y.sheet.rows } })
      ]
    ]

unfoldable pub duplicate_row : ℤ → Linked → Result Linked
unfolding duplicate_row_to
duplicate_row row = duplicate_row_to row (row +ℤ pos 1)
