-- ===== src/Adjust/Filter.antt =====
-- adjustAutoFilter (adjust.go).
-- The rows of the filter behind its header, shown again when the filter goes.
use excelize.Common.{
  Bool, false, not, ◌&&◌, ◌||◌, none, some, List, [], ◌∷◌, ◌++◌, if◌then◌else◌, Bytes, Result,
  ◌>>=◌, ok, fault,
}
use excelize.Common.Int.{ℤ, ◌+ℤ◌, ltb_ℤ, leb_ℤ, eqb_ℤ, pos}
use excelize.Merge.{split}
use excelize.Merge.Area.{first_cell, last_cell}
use excelize.Ref.Cell.{cell_name_to_coordinates, coordinates_to_cell_name, name_or}
use excelize.Sheet.Data.{Row, Worksheet}

unfoldable pub unhide_rows : ℤ → ℤ → List Row → List Row
unhide_rows first_row last_row [] = []
unhide_rows first_row last_row (d ∷ ds) =
    (if ltb_ℤ first_row d.r && leb_ℤ d.r last_row then record d { hidden = false } else d)
    ∷ unhide_rows first_row last_row ds

abbrev pub filter_goes : Bool → ℤ → ℤ → ℤ × ℤ → ℤ × ℤ → Bool
filter_goes dir num offset (first_col, first_row) (last_col, last_row) =
    (dir && eqb_ℤ first_row num && ltb_ℤ offset (pos 0))
    || (not dir && eqb_ℤ first_col num && eqb_ℤ last_col num)

-- The new texts of the corners: a column moves the last corner only.
abbrev pub first_moved : Bool → ℤ → ℤ → ℤ × ℤ → Bytes → Bytes
first_moved dir num offset (first_col, first_row) first_cell =
    if dir && leb_ℤ num first_row
    then name_or (coordinates_to_cell_name first_col (first_row +ℤ offset))
    else first_cell

abbrev pub last_moved : Bool → ℤ → ℤ → ℤ × ℤ → Bytes → Bytes
last_moved dir num offset (last_col, last_row) last_cell =
    if dir
    then (if leb_ℤ num last_row
        then name_or (coordinates_to_cell_name last_col (last_row +ℤ offset))
        else last_cell)
    else (if leb_ℤ num last_col
        then name_or (coordinates_to_cell_name (last_col +ℤ offset) last_row)
        else last_cell)

unfoldable pub filter_parts : Bool → ℤ → ℤ → List Bytes → Worksheet → Result Worksheet
unfolding unhide_rows
filter_parts dir num offset (first_cell ∷ last_cell ∷ rest) xlsx = do
  a ← cell_name_to_coordinates first_cell
  b ← cell_name_to_coordinates last_cell
  if filter_goes dir num offset a b
      then ok (record xlsx { auto_filter = none; rows = unhide_rows a.1 b.1 xlsx.rows })
      else ok (record xlsx {
        auto_filter = some (record {
          ref =
              first_moved dir num offset a first_cell
              ++ b':' ∷ last_moved dir num offset b last_cell;
        });
      })
filter_parts dir num offset rng xlsx = fault

unfoldable pub adjust_auto_filter : Bool → ℤ → ℤ → Worksheet → Result Worksheet
unfolding filter_parts split
adjust_auto_filter dir num offset xlsx = elim xlsx.auto_filter [
  | none ↦ ok xlsx
  | some a ↦ filter_parts dir num offset (split a.ref b':') xlsx
]
