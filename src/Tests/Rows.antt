-- ===== src/Tests/Rows.antt =====
-- Rows at concrete inputs.
use excelize.Cols.{float_zero}
use excelize.Common.{
  ◌≡◌, refl, false, not, ◌||◌, none, [], ◌∷◌, arith, ltb, ◌==◌, if◌then◌else◌, length, ◌>>=◌, ok,
}
use excelize.Common.Int.{pos}
use excelize.Rows.{
  default_row_height_pixels, set_row_height, set_row_visible, set_row_outline_level, get_row_height,
  get_row_visible, get_row_outline_level,
}
use excelize.Rows.Access.{
  get-set_row_visible, get-set_row_outline_level, height_of, get-set_row_height,
}
use excelize.Rows.Stored.{row_at}
use excelize.Sheet.Data.{Worksheet, blank_row}
use excelize.Sheet.Grid.{IsGrid}

abbrev one_row : Worksheet
one_row = record {
  cols = none;
  rows = record (blank_row (pos 1)) { ht = 0x4044000000000000; outline_level = 2 } ∷ [];
  auto_filter = none;
  merge_cells = none;
  hyperlinks = none;
}

one_row-IsGrid : IsGrid one_row
one_row-IsGrid = (omega arith, refl, tt, tt)

get-set_row_visible_example :
    (set_row_visible (pos 4) false one_row >>= get_row_visible (pos 3))
    ≡ ok (
        if 3 == 2
        then false
        else if ltb 2 (length one_row.rows) || ltb 2 3
        then not (row_at 0 one_row.rows 2).hidden
        else false)
get-set_row_visible_example = get-set_row_visible 3 2 false one_row (omega arith) (omega arith)

level_read_back :
    (set_row_outline_level (pos 4) 5 one_row >>= get_row_outline_level (pos 1))
    ≡ ok (if 3 == 0 then 5 else (row_at 0 one_row.rows 0).outline_level)
level_read_back = get-set_row_outline_level 3 0 5 one_row (omega arith) (omega arith)

get-set_row_height_example :
    (set_row_height (pos 4) 0x4048000000000000 one_row >>= get_row_height (pos 1))
    ≡ ok (
        if 3 == 0
        then (if float_zero 0x4048000000000000
            then default_row_height_pixels
            else 0x4048000000000000)
        else height_of (row_at 0 one_row.rows 0))
get-set_row_height_example =
    get-set_row_height 3 0 0x4048000000000000 one_row one_row-IsGrid (omega arith)
