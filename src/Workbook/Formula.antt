-- ===== src/Workbook/Formula.antt =====
-- SetCellFormula (cell.go), which takes a cell without a formula out of the calculation chain.
pub mod Laws
use excelize.Common.{none, some, [], if◌then◌else◌, Bytes, str_eq, Result, ◌>>=◌, ok}
use excelize.Sheet.Data.{Formula, Cell}
use excelize.Value.{prepare_cell, modify_cell}
use excelize.Workbook.Data.{Parser, File}
use excelize.Workbook.Delete.{delete_calc_chain}
use excelize.Workbook.Lookup.{get_sheet_index}
use excelize.Workbook.Reader.{work_sheet_reader, store_part}

unfoldable pub write_formula : Bytes → Cell → Cell
unfolding str_eq
write_formula content x = if str_eq content [] then record x { f = none } else record x {
  f = some (elim x.f as (λ q. Formula) [
    | some f ↦ record f { content = content }
    | none ↦ record { content = content; t = []; ref = []; si = [] }
  ]);
}

unfoldable pub set_cell_formula : Parser → Bytes → Bytes → Bytes → File → Result File
unfolding work_sheet_reader prepare_cell modify_cell write_formula delete_calc_chain get_sheet_index
    store_part str_eq
set_cell_formula p sheet axis formula f = do
  o ← work_sheet_reader p sheet f
  (grown, col, row) ← prepare_cell o.part.grid axis
  grid ← modify_cell col row (write_formula formula) grown
  let f' = store_part o.path (record o.part { grid = grid }) o.file
  if str_eq formula [] then delete_calc_chain p (get_sheet_index sheet f') axis f' else ok f'
