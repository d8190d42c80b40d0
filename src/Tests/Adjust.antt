-- ===== src/Tests/Adjust.antt =====
-- Insertion and removal at concrete inputs.
use excelize.Adjust.Check.{check_sheet}
use excelize.Adjust.Links.{Linked}
use excelize.Adjust.Merged.{adjust_merge_cells}
use excelize.Adjust.MovedDown.{placed, insert-row_at}
use excelize.Adjust.Ops.{adjust_dimensions}
use excelize.Common.{
  ◌-◌, ◌≡◌, refl, true, none, some, [], ◌∷◌, arith, ltb, ◌==◌, if◌then◌else◌, codes, ok,
}
use excelize.Common.Int.{◌+ℤ◌, pos, negsuc}
use excelize.Merge.{split}
use excelize.Ref.Cell.{split_cell_name, cell_name_to_coordinates, coordinates_to_cell_name}
use excelize.Ref.Cell.RoundTrip.{cell_name}
use excelize.Ref.Column.{column_name_to_number, column_number_to_name}
use excelize.Ref.Decimal.{itoa, atoi}
use excelize.Rows.Stored.{row_at}
use excelize.Sheet.Data.{Worksheet, blank_cell, blank_row}
use excelize.Sheet.Grid.{IsGrid}

abbrev three_rows : Linked
three_rows = record {
  sheet = record {
    cols = none;
    rows =
        record (blank_row (pos 1)) { c = blank_cell (codes "A1") ∷ [] }
        ∷ blank_row (pos 2)
        ∷ record (blank_row (pos 3)) { c = blank_cell (codes "A3") ∷ [] }
        ∷ [];
    auto_filter = none;
    merge_cells =
        some (record { count = pos 3; cells = codes "A1:A2" ∷ codes "B5:C9" ∷ codes "D5:E9" ∷ [] });
    hyperlinks = none;
  };
  rels = [];
}

-- An area disappears: the next one is passed over, and the last one is moved twice.
removed_twice :
    adjust_merge_cells true (pos 2) (negsuc 0) three_rows.sheet
    ≡ ok (record three_rows.sheet {
      merge_cells = some (record { count = pos 2; cells = codes "B5:C9" ∷ codes "D3:E7" ∷ [] });
    })
unfolding adjust_merge_cells cell_name_to_coordinates coordinates_to_cell_name ◌+ℤ◌ split
    split_cell_name atoi column_name_to_number column_number_to_name itoa
removed_twice = refl

-- A grid of two rows with cells.
abbrev grid : Worksheet
grid = record {
  cols = none;
  rows =
      record (blank_row (pos 1)) { c = blank_cell (cell_name 1 1) ∷ [] }
      ∷ record (blank_row (pos 2)) {
        c = blank_cell (cell_name 1 2) ∷ blank_cell (cell_name 2 2) ∷ [];
      }
      ∷ [];
  auto_filter = none;
  merge_cells = none;
  hyperlinks = none;
}

grid-IsGrid : IsGrid grid
grid-IsGrid = (
  omega arith,
  refl,
  (omega arith, refl, tt),
  (omega arith, refl, (omega arith, refl, (omega arith, refl, tt)), tt),
)

insert-row_at_example :
    row_at 0 (check_sheet (adjust_dimensions true (pos 2) (pos 1) grid)).rows 2 ≡ (
      if ltb 2 1
      then row_at 0 grid.rows 2
      else if 2 == 1
      then blank_row (pos 3)
      else placed 2 (row_at 0 grid.rows (2 - 1)))
insert-row_at_example = insert-row_at 1 grid 2 grid-IsGrid (omega arith) (omega arith)
