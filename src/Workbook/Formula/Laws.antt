-- ===== src/Workbook/Formula/Laws.antt =====
-- A formula that is set is read.
use excelize.Common.{
  ℕ, suc, ◌≤◌, ◌≡◌, refl, ap, ◌∙◌, Bool, true, false, Option, none, some, List, [], arith,
  if◌then◌else◌, Bytes, codes, str_eq, ok,
}
use excelize.Common.Int.{max_int}
use excelize.Merge.{merge_cells_parser}
use excelize.Ref.Cell.RoundTrip.{cell_name}
use excelize.Sheet.Data.{Formula, Cell, Row, Worksheet}
use excelize.Sheet.Grid.{IsGrid}
use excelize.Sheet.View.{view}
use excelize.Value.{formula_fn, get_cell_formula}
use excelize.Value.Access.{get_cell_formula-view}
use excelize.Value.Find.{read}
use excelize.Value.Write.{modify_cell-view}
use excelize.Workbook.Data.{Parser, File}
use excelize.Workbook.Formula.{write_formula, set_cell_formula}
use excelize.Workbook.Reader.{Opened, work_sheet_reader, store_part}
use excelize.Workbook.Stored.{reader-store_part}

write_formula-name : (formula : Bytes) (y : Cell) → (write_formula formula y).r ≡ y.r
unfolding write_formula
write_formula-name formula y = by_test (str_eq formula [])
  where
    by_test :
        (t : Bool)
        → (if t then record y { f = none } else record y {
          f = some (elim y.f as (λ q. Formula) [
            | some f ↦ record f { content = formula }
            | none ↦ record { content = formula; t = []; ref = []; si = [] }
          ]);
        }).r
          ≡ y.r
    by_test true = refl
    by_test false = refl

-- The formula of a cell is not a shared one.
abbrev pub NotShared : Option Formula → Type 0
NotShared none = Unit
NotShared (some f) = str_eq f.t (codes "shared") ≡ false

read-write_formula :
    (formula : Bytes) (x : Worksheet) (y : Cell)
    → str_eq formula [] ≡ false
    → NotShared y.f
    → read (formula_fn x (write_formula formula y)) ≡ ok formula
unfolding write_formula formula_fn str_eq
read-write_formula formula x y ne h = rw ne (by_formula y.f h)
  where
    by_formula :
        (q : Option Formula)
        → NotShared q
        → read (
            formula_fn x (record y {
              f = some (elim q as (λ q. Formula) [
                | some f ↦ record f { content = formula }
                | none ↦ record { content = formula; t = []; ref = []; si = [] }
              ]);
            }))
          ≡ ok formula
    by_formula none h = refl
    by_formula (some f) h = rw h refl

lead_same :
    (xlsx : Worksheet) (rows : List Row) (axis : Bytes)
    → merge_cells_parser (record xlsx { rows = rows }) axis ≡ merge_cells_parser xlsx axis
unfolding merge_cells_parser
lead_same xlsx rows axis = refl

-- A formula that SetCellFormula writes, and that is not empty, is read back by GetCellFormula, through
-- the reader of the worksheet: on a well-formed grid, at an axis that leads to a cell in range whose
-- formula, if it has one, is not a shared one.
pub get-set_cell_formula :
    (p : Parser) (sheet axis formula : Bytes) (f : File) (o : Opened) (i j : ℕ)
    → work_sheet_reader p sheet f ≡ ok o
    → IsGrid o.part.grid
    → merge_cells_parser o.part.grid axis ≡ ok (cell_name (suc j) (suc i))
    → suc i ≤ max_int
    → suc j ≤ max_int
    → str_eq formula [] ≡ false
    → NotShared (view o.part.grid i j).f
    → (f' : File) × (o' : Opened) × (set_cell_formula p sheet axis formula f ≡ ok f')
      × (work_sheet_reader p sheet f' ≡ ok o')
      × (get_cell_formula axis o'.part.grid ≡ ok formula)
unfolding set_cell_formula
get-set_cell_formula p sheet axis formula f o i j h g lead hi hj ne shared =
    let (grown, rows, prepared, done, is, sees) =
      modify_cell-view (write_formula formula) axis o.part.grid i j (write_formula-name formula) g
        lead hi hj in
    let grid : Worksheet = record o.part.grid { rows = rows } in
    let part = record o.part { grid = grid } in
    let here : view grid i j ≡ write_formula formula (view o.part.grid i j) =
      sees i j ∙ ground arith in
    (
      store_part o.path part o.file,
      record { file = store_part o.path part o.file; path = o.path; part = part },
      rw (h, prepared, done, ne) refl,
      reader-store_part p sheet part f o h,
      get_cell_formula-view axis grid i j is (lead_same o.part.grid rows axis ∙ lead) hi hj
          ∙ ap (λ y. read (formula_fn grid y)) here
          ∙ read-write_formula formula grid (view o.part.grid i j) ne shared,
    )
