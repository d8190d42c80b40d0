-- ===== src/Adjust/Dimensions.antt =====
-- adjustColDimensions, adjustRowDimensions and ajustSingleRowDimensions (adjust.go).
-- The new name of a cell in a column behind `col`; the errors are dropped.
use excelize.Common.{◌&&◌, List, [], ◌∷◌, if◌then◌else◌}
use excelize.Common.Int.{ℤ, ◌+ℤ◌, ltb_ℤ, leb_ℤ, pos}
use excelize.Ref.Cell.{
  split_cell_name, join_cell_name, cell_name_to_coordinates, coordinates_to_cell_name,
  coordinates_or, split_or, name_or,
}
use excelize.Sheet.Data.{Cell, Row}

unfoldable pub moved_cell : ℤ → ℤ → ℤ × ℤ → Cell → Cell
unfolding name_or
moved_cell col offset (cell_col, cell_row) x =
    if leb_ℤ col cell_col && ltb_ℤ (pos 0) (cell_col +ℤ offset)
    then record x { r = name_or (coordinates_to_cell_name (cell_col +ℤ offset) cell_row) }
    else x

unfoldable pub adjust_cells : ℤ → ℤ → List Cell → List Cell
unfolding moved_cell coordinates_or
adjust_cells col offset [] = []
adjust_cells col offset (x ∷ xs) =
    moved_cell col offset (coordinates_or (cell_name_to_coordinates x.r)) x
    ∷ adjust_cells col offset xs

unfoldable pub adjust_col_dimensions : List Row → ℤ → ℤ → List Row
unfolding adjust_cells
adjust_col_dimensions [] col offset = []
adjust_col_dimensions (d ∷ ds) col offset =
    record d { c = adjust_cells col offset d.c } ∷ adjust_col_dimensions ds col offset

unfoldable pub renamed : ℤ → List Cell → List Cell
unfolding split_or name_or
renamed num [] = []
renamed num (x ∷ xs) =
    record x { r = name_or (join_cell_name (split_or (split_cell_name x.r)).0 num) }
    ∷ renamed num xs

unfoldable pub ajust_single_row_dimensions : Row → ℤ → Row
unfolding renamed
ajust_single_row_dimensions d num = record d { r = num; c = renamed num d.c }

unfoldable pub adjust_row_dimensions : List Row → ℤ → ℤ → List Row
unfolding ajust_single_row_dimensions
adjust_row_dimensions [] row offset = []
adjust_row_dimensions (d ∷ ds) row offset =
    (if leb_ℤ row d.r && ltb_ℤ (pos 0) (d.r +ℤ offset)
      then ajust_single_row_dimensions d (d.r +ℤ offset)
      else d)
    ∷ adjust_row_dimensions ds row offset
