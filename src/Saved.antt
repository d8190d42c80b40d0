-- ===== src/Saved.antt =====
-- workSheetWriter and trimCell (sheet.go). What encoding/xml makes of a worksheet, with the two
-- replacements of name spaces behind it, is the parameter `marshal`.
pub mod Scatter
pub mod Numbered
pub mod Reloaded
pub mod RoundTrip
use excelize.Common.{
  Bool, true, false, not, ◌||◌, none, some, List, [], ◌∷◌, if◌then◌else◌, Bytes, str_eq,
}
use excelize.Common.Dict.{Dict, lookup, insert}
use excelize.Common.Int.{eqb_ℤ, pos}
use excelize.Sheet.Data.{Cell, Row, Worksheet}
use excelize.Workbook.Data.{SheetPart, File}
use excelize.Workbook.Reader.{save_file_list, store_part}

unfoldable pub is_kept : Cell → Bool
unfolding str_eq
is_kept x =
    not (eqb_ℤ x.s (pos 0))
    || not (str_eq x.v [])
    || (elim x.f [ none ↦ false | some f ↦ true ])
    || not (str_eq x.t [])

-- The cells that are kept, moved to the front.
unfoldable pub trim_cell : List Cell → List Cell
unfolding is_kept
trim_cell [] = []
trim_cell (x ∷ xs) = if is_kept x then x ∷ trim_cell xs else trim_cell xs

unfoldable pub trim_rows : List Row → List Row
unfolding trim_cell
trim_rows [] = []
trim_rows (d ∷ ds) = record d { c = trim_cell d.c } ∷ trim_rows ds

abbrev pub trimmed : Worksheet → Worksheet
trimmed xlsx = record xlsx { rows = trim_rows xlsx.rows }

-- One sheet: it stays in memory as it is written, and counts as not checked.
unfoldable pub write_sheet : (SheetPart → Bytes) → Bytes → SheetPart → File → File
unfolding trim_rows store_part save_file_list insert lookup
write_sheet marshal path x f =
    let y = record x { grid = trimmed x.grid } in
    let f' = save_file_list path (marshal y) (store_part path y f) in
    record f' {
      checked = elim (lookup path f'.checked) as (λ b. Dict Bool) [
        | none ↦ f'.checked
        | some b ↦ if b then insert path false f'.checked else f'.checked
      ];
    }

unfoldable pub write_sheets : (SheetPart → Bytes) → Dict SheetPart → File → File
unfolding write_sheet
write_sheets marshal [] f = f
write_sheets marshal ((path, x) ∷ d) f = write_sheets marshal d (write_sheet marshal path x f)

unfoldable pub work_sheet_writer : (SheetPart → Bytes) → File → File
unfolding write_sheets
work_sheet_writer marshal f = write_sheets marshal f.sheets f
