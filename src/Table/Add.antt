-- ===== src/Table/Add.antt =====
-- AddTable and what it calls (table.go). The marshalling of the table's XML is a parameter.
use excelize.Common.{
  ℕ, zero, suc, Bool, true, false, Option, none, some, List, [], ◌∷◌, ◌++◌, if◌then◌else◌, Bytes,
  codes, str_eq, Result, ◌>>=◌, ok, err, fault,
}
use excelize.Common.Int.{ℤ, pos_part, ◌+ℤ◌, ◌-ℤ◌, eqb_ℤ, pos}
use excelize.Merge.{least, greatest}
use excelize.Parts.{
  add_sheet_relationships, modify_sheet, count_paths, keys, add_content_type_part, table_part,
}
use excelize.Ref.Cell.{cell_name_to_coordinates, coordinates_to_cell_name}
use excelize.Ref.Decimal.{itoa, atoi}
use excelize.Sheet.Data.{Worksheet}
use excelize.Value.{Book, get_cell_value, set_cell_str}
use excelize.Workbook.Active.{or_panic}
use excelize.Workbook.Create.{rel_name}
use excelize.Workbook.Data.{Parser, File}
use excelize.Workbook.Reader.{save_file_list, work_sheet_reader, store_part}

pub record FormatTable : Type 0 where
  pub table_name : Bytes
  pub table_style : Bytes
  pub show_first_column : Bool
  pub show_last_column : Bool
  pub show_row_stripes : Bool
  pub show_column_stripes : Bool

pub record TableColumn : Type 0 where
  pub id : ℤ
  pub name : Bytes

-- xlsxTable with the parts that it points to.
pub record Table : Type 0 where
  pub id : ℤ
  pub name : Bytes
  pub ref : Bytes
  pub columns : List TableColumn
  pub style : FormatTable

unfoldable pub count_tables : File → ℕ
unfolding count_paths
count_tables f = count_paths (codes "xl/tables/table") (keys f.parts)

unfoldable pub add_sheet_table : Parser → Bytes → ℤ → File → Result File
unfolding modify_sheet rel_name
add_sheet_table p sheet rid f =
    modify_sheet p sheet
      (λ x. record x {
        table_parts = some (elim x.table_parts as (λ y. List Bytes) [
          | none ↦ rel_name rid ∷ []
          | some ts ↦ ts ++ rel_name rid ∷ []
        ]);
      })
      f

-- An error of GetCellValue is dropped, with the empty text that comes with it.
abbrev pub value_or : Result Bytes → Result Bytes
value_or (ok v) = ok v
value_or (err e) = ok []
value_or fault = fault

-- An error of SetCellStr is dropped.
abbrev pub sheet_or : Worksheet → Result Worksheet → Result Worksheet
sheet_or x (ok y) = ok y
sheet_or x (err e) = ok x
sheet_or x fault = fault

abbrev pub is_some {ℓ} : {A : Type ℓ} → Option A → Bool
is_some none = false
is_some (some a) = true

-- One column: a header that is a number is stored as a text, an empty one gets a name.
unfoldable pub table_column : Book → Bytes → ℕ → Worksheet → Result (Worksheet × TableColumn)
unfolding get_cell_value set_cell_str atoi str_eq itoa
table_column b cell idx x = do
  name ← value_or (get_cell_value b cell x)
  x1 ← sheet_or x (if is_some (atoi name) then set_cell_str cell name x else ok x)
  let name' = if str_eq name [] then codes "Column" ++ itoa (pos idx) else name
  x2 ← sheet_or x1 (if str_eq name [] then set_cell_str cell name' x1 else ok x1)
  ok (x2, record { id = pos idx; name = name' })

-- The loop over the columns from `col`, with the number of columns that are left.
unfoldable pub column_loop :
    Book → ℕ → ℤ → ℤ → ℕ → Worksheet → Result (Worksheet × List TableColumn)
unfolding coordinates_to_cell_name table_column
column_loop b zero col row idx x = ok (x, [])
column_loop b (suc rounds) col row idx x = do
  cell ← coordinates_to_cell_name col row
  (x1, c) ← table_column b cell (suc idx) x
  (x2, cs) ← column_loop b rounds (col +ℤ pos 1) row (suc idx) x1
  ok (x2, c ∷ cs)

abbrev pub columns_between : ℤ → ℤ → ℕ
columns_between hcol vcol = pos_part (vcol -ℤ hcol +ℤ pos 1)

-- A table has at least two rows.
unfoldable pub add_table :
    Book → ℤ → ℤ → ℤ → ℤ → ℤ → FormatTable → Worksheet → Result (Worksheet × Table)
unfolding coordinates_to_cell_name column_loop itoa str_eq
add_table b hcol hrow vcol vrow i format x = do
  let vrow' = if eqb_ℤ hrow vrow then vrow +ℤ pos 1 else vrow
  hcell ← coordinates_to_cell_name hcol hrow
  vcell ← coordinates_to_cell_name vcol vrow'
  (x', columns) ← column_loop b (columns_between hcol vcol) hcol hrow 0 x
  ok (
    x',
    record {
      id = i;
      name = if str_eq format.table_name [] then codes "Table" ++ itoa i else format.table_name;
      ref = hcell ++ b':' ∷ vcell;
      columns = columns;
      style = format;
    },
  )

abbrev pub table_relationship : Bytes
table_relationship =
    codes "http://schemas.openxmlformats.org/officeDocument/2006/relationships/table"

-- AddTable behind parseFormatTableSet.
unfoldable pub add_table_to_file :
    Parser → (Table → Bytes) → Book → Bytes → Bytes → Bytes → FormatTable → File → Result File
unfolding cell_name_to_coordinates least greatest count_tables add_sheet_relationships
    add_sheet_table work_sheet_reader or_panic add_table store_part save_file_list
    add_content_type_part
add_table_to_file p marshal b sheet hcell vcell format f = do
  h ← cell_name_to_coordinates hcell
  v ← cell_name_to_coordinates vcell
  let table_id = pos (suc (count_tables f))
  let target = codes "../tables/table" ++ itoa table_id ++ codes ".xml"
  let table_xml = codes "xl/tables/table" ++ itoa table_id ++ codes ".xml"
  let added = add_sheet_relationships p sheet table_relationship target [] f
  f1 ← add_sheet_table p sheet added.1 added.0
  o ← or_panic (work_sheet_reader p sheet f1)
  r ←
      add_table b (least h.0 v.0) (least h.1 v.1) (greatest h.0 v.0) (greatest h.1 v.1) table_id
        format o.part.grid
  let f2 = store_part o.path (record o.part { grid = r.0 }) o.file
  ok (add_content_type_part table_id table_part (save_file_list table_xml (marshal r.1) f2))
