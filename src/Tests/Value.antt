-- ===== src/Tests/Value.antt =====
-- Values of cells at concrete inputs.
use excelize.Common.{
  ℕ, ◌≡◌, refl, inl, true, none, some, List, [], ◌∷◌, arith, Bytes, codes, str_eq, ◌>>=◌, ok,
}
use excelize.Common.Int.{pos, negsuc}
use excelize.Merge.{merge_cells_parser}
use excelize.Merge.Area.{Area, area_ref}
use excelize.Merge.Refine.{merge_cells_parser-anchor, merge_cells_parser-none}
use excelize.Ref.Cell.RoundTrip.{cell_name}
use excelize.Ref.Decimal.{itoa}
use excelize.Sheet.Data.{Formula, Row, Worksheet, blank_cell, blank_row}
use excelize.Sheet.Grid.{IsRows, IsGrid}
use excelize.Sheet.View.{rows_view, view}
use excelize.Value.{
  Book, formatted_value, get_cell_value, get_cell_formula, prepare_cell_style, update_cell,
  write_bool, set_cell_int, set_cell_str,
}
use excelize.Value.Access.{get-set_cell_str, get-set_cell_int, get-update_cell_other}
use excelize.Value.Formulas.{get_cell_formula-shown}
use excelize.Value.Write.{updated, styled, update_cell-view}

abbrev book : Book
book = record { shared_strings = []; xfs = []; builtin = λ n. none }

-- The rectangle from column 2, row 2 to column 3, row 3 is merged; nothing is stored.
abbrev block : Area
block = record { c1 = 2; r1 = 2; c2 = 3; r2 = 3 }

abbrev sheet : Worksheet
sheet = record {
  cols = none;
  rows = [];
  auto_filter = none;
  merge_cells = some (record { count = pos 1; cells = area_ref block ∷ [] });
  hyperlinks = none;
}

c3_leads : merge_cells_parser sheet (cell_name 3 3) ≡ ok (cell_name 2 2)
c3_leads =
    merge_cells_parser-anchor sheet (record { count = pos 1; cells = area_ref block ∷ [] })
      (block ∷ []) 3 3 refl refl (omega arith, tt) (omega arith) (omega arith) (omega arith)
      (omega arith)

b3_leads : merge_cells_parser sheet (cell_name 2 3) ≡ ok (cell_name 2 2)
b3_leads =
    merge_cells_parser-anchor sheet (record { count = pos 1; cells = area_ref block ∷ [] })
      (block ∷ []) 2 3 refl refl (omega arith, tt) (omega arith) (omega arith) (omega arith)
      (omega arith)

a1_leads : merge_cells_parser sheet (cell_name 1 1) ≡ ok (cell_name 1 1)
a1_leads =
    merge_cells_parser-anchor sheet (record { count = pos 1; cells = area_ref block ∷ [] })
      (block ∷ []) 1 1 refl refl (omega arith, tt) (omega arith) (omega arith) (omega arith)
      (omega arith)

-- Written under one cell of the merged area, read under another.
get-set_cell_str_example :
    (set_cell_str (cell_name 3 3) (codes "x") sheet >>= get_cell_value book (cell_name 2 3))
    ≡ ok (codes "x")
unfolding formatted_value prepare_cell_style
get-set_cell_str_example =
    get-set_cell_str book (cell_name 3 3) (cell_name 2 3) (codes "x") sheet 1 1 tt c3_leads b3_leads
      (omega arith) (omega arith)

get-set_cell_int_example :
    (set_cell_int (cell_name 3 3) (negsuc 41) sheet >>= get_cell_value book (cell_name 2 3))
    ≡ ok (codes "-42")
unfolding formatted_value prepare_cell_style itoa
get-set_cell_int_example =
    get-set_cell_int book (cell_name 3 3) (cell_name 2 3) (negsuc 41) sheet 1 1 tt c3_leads b3_leads
      (omega arith) (omega arith)

update_cell-view_example :
    (rows : List Row) × (update_cell (write_bool true) (cell_name 3 3) sheet
      ≡ ok (record sheet { rows = rows }))
    × IsRows 0 rows
    × ((i' j' : ℕ)
        → rows_view 0 rows i' j'
          ≡ updated (view sheet) 1 1 (styled sheet 1 (write_bool true)) i' j')
update_cell-view_example =
    update_cell-view (write_bool true) (cell_name 3 3) sheet 1 1 (λ y. refl) tt c3_leads
      (omega arith) (omega arith)

get-update_cell_other_example :
    (update_cell (write_bool true) (cell_name 3 3) sheet >>= get_cell_value book (cell_name 1 1))
    ≡ get_cell_value book (cell_name 1 1) sheet
get-update_cell_other_example =
    get-update_cell_other book (write_bool true) (cell_name 3 3) (cell_name 1 1) sheet 1 1 0 0
      (λ y. refl) tt c3_leads a1_leads (omega arith) (omega arith) (omega arith) (omega arith)
      (inl (omega arith))

-- A1 has a formula that A2 shares.
abbrev shared_of : Bytes → Bytes → Formula
shared_of content area = record {
  content = content;
  t = codes "shared";
  ref = area;
  si = codes "0";
}

abbrev shared_sheet : Worksheet
shared_sheet = record sheet {
  rows =
      record (blank_row (pos 1)) {
        c =
            record (blank_cell (cell_name 1 1)) {
              f = some (shared_of (codes "B1+1") (codes "A1:A2"));
            }
            ∷ [];
      }
      ∷ record (blank_row (pos 2)) {
        c = record (blank_cell (cell_name 1 2)) { f = some (shared_of [] []) } ∷ [];
      }
      ∷ [];
  merge_cells = none;
}

shared_sheet-IsGrid : IsGrid shared_sheet
shared_sheet-IsGrid =
    (omega arith, refl, (omega arith, refl, tt), (omega arith, refl, (omega arith, refl, tt), tt))

get_cell_formula-shown_example : get_cell_formula (cell_name 1 2) shared_sheet ≡ ok (codes "B1+1")
unfolding str_eq
get_cell_formula-shown_example =
    get_cell_formula-shown (cell_name 1 2) shared_sheet 1 0 shared_sheet-IsGrid
      (merge_cells_parser-none shared_sheet 1 2 refl) (omega arith) (omega arith)
