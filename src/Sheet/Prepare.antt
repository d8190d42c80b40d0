-- ===== src/Sheet/Prepare.antt =====
-- prepareSheetXML, fillColumns and makeContiguousColumns (sheet.go).
use excelize.Common.{ℕ, zero, suc, ◌-◌, List, [], ◌∷◌, ◌++◌, length, Result, ◌>>=◌, ok}
use excelize.Common.Int.{ℤ, pos_part, ◌+ℤ◌, ◌-ℤ◌, pos}
use excelize.Ref.Cell.{coordinates_to_cell_name, name_or}
use excelize.Sheet.Data.{Cell, Row, Worksheet, blank_cell, blank_row, modify_at}

-- The cells that the loop of fillColumns appends, `rounds` of them from the index `idx` on.
unfoldable pub new_cells : ℕ → ℕ → ℤ → List Cell
new_cells zero idx row = []
new_cells (suc rounds) idx row =
    blank_cell (name_or (coordinates_to_cell_name (pos (suc idx)) row))
    ∷ new_cells rounds (suc idx) row

unfoldable pub fill_columns : Row → ℤ → ℤ → Row
unfolding new_cells
fill_columns row_data col row = record row_data {
  c = row_data.c ++ new_cells (pos_part col - length row_data.c) (length row_data.c) row;
}

-- The rows that prepareSheetXML appends.
unfoldable pub new_rows : ℕ → ℕ → List Row
new_rows zero idx = []
new_rows (suc rounds) idx = blank_row (pos (suc idx)) ∷ new_rows rounds (suc idx)

abbrev pub grown_rows : List Row → ℤ → List Row
grown_rows rows row = rows ++ new_rows (pos_part row - length rows) (length rows)

-- A row below 1 indexes in front of the slice, and panics.
unfoldable pub prepare_sheet_xml : Worksheet → ℤ → ℤ → Result Worksheet
unfolding fill_columns new_rows
prepare_sheet_xml xlsx col row = do
  rows ← modify_at (row -ℤ pos 1) (λ d. fill_columns d col row) (grown_rows xlsx.rows row)
  ok (record xlsx { rows = rows })

-- The rows `from_row .. to_row - 1` are filled; `rounds` is the number that is left.
unfoldable pub contiguous_loop : ℕ → ℤ → ℤ → List Row → Result (List Row)
contiguous_loop zero from_row col_count rows = ok rows
contiguous_loop (suc rounds) from_row col_count rows =
    modify_at (from_row -ℤ pos 1) (λ d. fill_columns d col_count from_row) rows
    >>= contiguous_loop rounds (from_row +ℤ pos 1) col_count

unfoldable pub make_contiguous_columns : Worksheet → ℤ → ℤ → ℤ → Result Worksheet
unfolding contiguous_loop
make_contiguous_columns xlsx from_row to_row col_count = do
  rows ← contiguous_loop (pos_part (to_row -ℤ from_row)) from_row col_count xlsx.rows
  ok (record xlsx { rows = rows })
