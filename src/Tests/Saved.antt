-- ===== src/Tests/Saved.antt =====
-- A worksheet that is saved, and then written again or read again.
use excelize.Adjust.Check.{check_sheet, check_row}
use excelize.Common.{
  ℕ, suc, ◌≤◌, ◌≡◌, refl, none, List, [], ◌∷◌, map, arith, if◌then◌else◌, Bytes, codes, str_eq,
  Result, ok, err, fault,
}
use excelize.Common.Int.{max_int, ◌-ℤ◌, pos}
use excelize.Merge.{merge_cells_parser}
use excelize.Merge.Refine.{merge_cells_parser-none}
use excelize.Ref.Cell.{split_cell_name, cell_name_to_coordinates}
use excelize.Ref.Cell.RoundTrip.{cell_name}
use excelize.Ref.Column.{column_name_to_number}
use excelize.Ref.Decimal.{itoa, atoi}
use excelize.Saved.{is_kept, trim_rows, trimmed}
use excelize.Saved.RoundTrip.{check-trimmed}
use excelize.Sheet.Data.{Cell, Worksheet, blank_cell, blank_row}
use excelize.Sheet.Grid.{IsGrid}
use excelize.Sheet.Prepare.{prepare_sheet_xml}
use excelize.Sheet.View.{view}
use excelize.Tests.Workbook.{no_parser, sheet1, one_sheet}
use excelize.Value.{get_cell_formula, prepare_cell, modify_cell, update_cell, set_cell_int}
use excelize.Workbook.Create.{new_part}
use excelize.Workbook.Data.{SheetPart, File}
use excelize.Workbook.Formula.{set_cell_formula}
use excelize.Workbook.Formula.Laws.{get-set_cell_formula}
use excelize.Workbook.Names.{sheet_path}
use excelize.Workbook.Reader.{Opened, work_sheet_reader}

abbrev number_cell : Bytes → Bytes → Cell
number_cell name value = record (blank_cell name) { v = value }

-- A row with a blank cell A1 and the number 5 in B1.
abbrev with_gap : Worksheet
with_gap = record {
  cols = none;
  rows =
      record (blank_row (pos 1)) {
        c = blank_cell (cell_name 1 1) ∷ number_cell (cell_name 2 1) (codes "5") ∷ [];
      }
      ∷ [];
  auto_filter = none;
  merge_cells = none;
  hyperlinks = none;
}

with_gap-IsGrid : IsGrid with_gap
with_gap-IsGrid = ((omega arith, refl, (omega arith, refl, (omega arith, refl, tt)), tt))

check-trimmed_example :
    (y : Worksheet) × (check_row (check_sheet (trimmed with_gap)) ≡ ok y)
    × IsGrid y
    × ((i j : ℕ)
        → suc i ≤ max_int
        → suc j ≤ max_int
        → view y i j ≡ (
            if is_kept (view with_gap i j)
            then view with_gap i j
            else blank_cell (cell_name (suc j) (suc i))))
check-trimmed_example = check-trimmed with_gap with_gap-IsGrid

-- The same cells, by their names.
abbrev named_gap : Worksheet
named_gap = record with_gap {
  rows =
      record (blank_row (pos 1)) {
        c = blank_cell (codes "A1") ∷ number_cell (codes "B1") (codes "5") ∷ [];
      }
      ∷ [];
}

-- The values of the cells of the first row, with their names.
abbrev row_values : Result Worksheet → List (Bytes × Bytes)
row_values (ok x) = elim x.rows [ [] ↦ [] | d ∷ ds ↦ map (λ (c : Cell). (c.r, c.v)) d.c ]
row_values (err e) = []
row_values fault = []

-- Behind a save the worksheet in memory is trimmed: a number for A1 is written to B1.
set_behind_save :
    row_values (set_cell_int (codes "A1") (pos 7) (trimmed named_gap))
    ≡ (codes "B1", codes "7") ∷ []
unfolding set_cell_int trim_rows update_cell prepare_cell merge_cells_parser
    cell_name_to_coordinates split_cell_name atoi column_name_to_number prepare_sheet_xml ◌-ℤ◌
    modify_cell itoa
set_behind_save = refl

abbrev gap_part : SheetPart
gap_part = record new_part { grid = with_gap }

abbrev gap_file : File
gap_file = record one_sheet { sheets = (sheet_path (pos 1), gap_part) ∷ [] }

opened_gap : Opened
opened_gap = record { file = gap_file; path = sheet_path (pos 1); part = gap_part }

get-set_cell_formula_example :
    (f' : File) × (o' : Opened) × (set_cell_formula no_parser sheet1
        (cell_name 2 1)
        (codes "SUM(A1)")
        gap_file
      ≡ ok f')
    × (work_sheet_reader no_parser sheet1 f' ≡ ok o')
    × (get_cell_formula (cell_name 2 1) o'.part.grid ≡ ok (codes "SUM(A1)"))
unfolding work_sheet_reader str_eq sheet_path itoa opened_gap
get-set_cell_formula_example =
    get-set_cell_formula no_parser sheet1 (cell_name 2 1) (codes "SUM(A1)") gap_file opened_gap 0 1
      refl with_gap-IsGrid (merge_cells_parser-none opened_gap.part.grid 2 1 refl) (omega arith)
      (omega arith) refl tt
