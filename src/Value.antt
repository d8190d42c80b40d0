-- ===== src/Value.antt =====
-- Values of cells: getValueFrom (rows.go), prepareCell, the setters and getCellStringFunc (cell.go).
pub mod Find
pub mod Write
pub mod Access
pub mod Formulas
use excelize.Common.{
  ℕ, Bool, true, false, not, ◌&&◌, Option, none, some, List, [], ◌∷◌, ◌++◌, ltb, ◌==◌,
  if◌then◌else◌, length, set, take, get_last?, Bytes, codes, str_eq, Result, ◌>>=◌, ok, fault,
}
use excelize.Common.Int.{ℤ, pos_part, ◌-ℤ◌, ltb_ℤ, leb_ℤ, eqb_ℤ, pos}
use excelize.Merge.{merge_cells_parser}
use excelize.Ref.Cell.{cell_name_to_coordinates}
use excelize.Ref.Decimal.{itoa, atoi_value}
use excelize.Sheet.Data.{XmlAttr, Formula, Cell, Row, Col, Worksheet, index?, modify_at}
use excelize.Sheet.Prepare.{prepare_sheet_xml}

-- xlsxSI: the runs of a rich text, or a plain one.
pub record SharedItem : Type 0 where
  pub runs : List Bytes
  pub t : Bytes

-- What the values of cells depend on outside the sheet: the shared strings, the number format of
-- each style, and the format functions by their number; these compute with floats and are not
-- modelled.
pub record Book : Type 0 where
  pub shared_strings : List SharedItem
  pub xfs : List ℤ
  pub builtin : ℤ → Option (ℤ → Bytes → Bytes)

unfoldable pub apply_format : Option (ℤ → Bytes → Bytes) → ℤ → Bytes → Bytes
apply_format none num v = v
apply_format (some g) num v = g num v

-- A style index out of range panics.
unfoldable pub formatted_value : Book → ℤ → Bytes → Result Bytes
unfolding apply_format
formatted_value b s v =
    if eqb_ℤ s (pos 0)
    then ok v
    else elim (index? b.xfs s) [ none ↦ fault | some num ↦ ok (apply_format (b.builtin num) num v) ]

unfoldable pub concat_runs : List Bytes → Bytes
concat_runs [] = []
concat_runs (t ∷ ts) = t ++ concat_runs ts

unfoldable pub shared_value : Book → ℤ → Option SharedItem → Result Bytes
unfolding concat_runs formatted_value
shared_value b s none = fault
shared_value b s (some item) =
    if ltb 0 (length item.runs) then ok (concat_runs item.runs) else formatted_value b s item.t

-- The error that getValueFrom returns is nil on every path.
unfoldable pub value_from : Book → Cell → Result Bytes
unfolding shared_value formatted_value
value_from b x =
    if str_eq x.t (codes "s")
    then shared_value b x.s (index? b.shared_strings (atoi_value x.v))
    else if str_eq x.t (codes "str")
    then formatted_value b x.s x.v
    else if str_eq x.t (codes "inlineStr")
    then elim x.inline [ none ↦ fault | some t ↦ formatted_value b x.s t ]
    else formatted_value b x.s x.v

-- The loop over the cells of a row; none stands for going on to the next row.
unfoldable pub cell_search :
    (Cell → Result (Bytes × Bool)) → Bytes → List Cell → Result (Option Bytes)
cell_search fn axis [] = ok none
cell_search fn axis (x ∷ xs) =
    let rest = cell_search fn axis xs in
    if str_eq axis x.r then (fn x >>= λ p. if p.1 then ok (some p.0) else rest) else rest

unfoldable pub row_search : (Cell → Result (Bytes × Bool)) → Bytes → ℤ → List Row → Result Bytes
unfolding cell_search
row_search fn axis row [] = ok []
row_search fn axis row (d ∷ ds) =
    let rest = row_search fn axis row ds in
    if eqb_ℤ d.r row
    then (cell_search fn axis d.c >>= λ o. elim o [ some v ↦ ok v | none ↦ rest ])
    else rest

unfoldable pub last_row_num : List Row → ℤ
last_row_num rows = elim (get_last? rows) [ none ↦ pos 0 | some d ↦ d.r ]

unfoldable pub get_cell_string_func :
    (Cell → Result (Bytes × Bool)) → Bytes → Worksheet → Result Bytes
unfolding last_row_num row_search
get_cell_string_func fn axis xlsx = do
  axis' ← merge_cells_parser xlsx axis
  (col, row) ← cell_name_to_coordinates axis'
  if ltb_ℤ (last_row_num xlsx.rows) row then ok [] else row_search fn axis' row xlsx.rows

unfoldable pub value_fn : Book → Cell → Result (Bytes × Bool)
unfolding value_from
value_fn b x = value_from b x >>= λ v. ok (v, true)

unfoldable pub get_cell_value : Book → Bytes → Worksheet → Result Bytes
unfolding get_cell_string_func value_fn
get_cell_value b = get_cell_string_func (value_fn b)

-- getSharedForumula: the content of the first shared formula with the index `si` and a reference.
unfoldable pub is_origin : Bytes → Formula → Bool
is_origin si f = not (str_eq f.ref []) && str_eq f.t (codes "shared") && str_eq f.si si

unfoldable pub origin_in_row : Bytes → List Cell → Option Bytes
unfolding is_origin
origin_in_row si [] = none
origin_in_row si (x ∷ xs) = elim x.f [
  | none ↦ origin_in_row si xs
  | some f ↦ if is_origin si f then some f.content else origin_in_row si xs
]

unfoldable pub get_shared_formula : List Row → Bytes → Bytes
unfolding origin_in_row
get_shared_formula [] si = []
get_shared_formula (d ∷ ds) si = elim (origin_in_row si d.c) [
  | none ↦ get_shared_formula ds si
  | some content ↦ content
]

unfoldable pub formula_fn : Worksheet → Cell → Result (Bytes × Bool)
unfolding get_shared_formula
formula_fn xlsx x = elim x.f [
  | none ↦ ok ([], false)
  | some f ↦
      if str_eq f.t (codes "shared")
      then ok (get_shared_formula xlsx.rows f.si, true)
      else ok (f.content, true)
]

unfoldable pub get_cell_formula : Bytes → Worksheet → Result Bytes
unfolding get_cell_string_func formula_fn
get_cell_formula axis xlsx = get_cell_string_func (formula_fn xlsx) axis xlsx

-- prepareCell: the grown sheet and the coordinates of the cell that the pointer leads to.
unfoldable pub prepare_cell : Worksheet → Bytes → Result (Worksheet × ℤ × ℤ)
prepare_cell xlsx cell = do
  cell' ← merge_cells_parser xlsx cell
  (col, row) ← cell_name_to_coordinates cell'
  grown ← prepare_sheet_xml xlsx col row
  ok (grown, col, row)

-- A write through a pointer to `Row[row_idx].C[col_idx]`.
unfoldable pub modify_in_rows : ℤ → ℤ → (Cell → Cell) → List Row → Result (List Row)
modify_in_rows row_idx col_idx f rows = elim (index? rows row_idx) [
  | none ↦ fault
  | some d ↦
      modify_at col_idx f d.c >>= λ cs. ok (set rows (pos_part row_idx) (record d { c = cs }))
]

-- A write through the pointer of prepareCell.
unfoldable pub modify_cell : ℤ → ℤ → (Cell → Cell) → Worksheet → Result Worksheet
unfolding modify_in_rows
modify_cell col row f xlsx = do
  rows ← modify_in_rows (row -ℤ pos 1) (col -ℤ pos 1) f xlsx.rows
  ok (record xlsx { rows = rows })

unfoldable pub style_loop : List Col → ℤ → ℤ → ℤ
style_loop [] col style = style
style_loop (c ∷ cs) col style =
    style_loop cs col (if leb_ℤ c.min_col col && leb_ℤ col c.max_col then c.style else style)

unfoldable pub prepare_cell_style : Worksheet → ℤ → ℤ → ℤ
unfolding style_loop
prepare_cell_style xlsx col style = elim xlsx.cols [
  | none ↦ style
  | some cs ↦ if eqb_ℤ style (pos 0) then style_loop cs col style else style
]

-- What all setters do: prepare the cell, and write its style and then the fields of the setter.
unfoldable pub update_cell : (Cell → Cell) → Bytes → Worksheet → Result Worksheet
update_cell f axis xlsx = do
  (grown, col, row) ← prepare_cell xlsx axis
  modify_cell col row (λ x. f (record x { s = prepare_cell_style grown col x.s })) grown

-- The fields that the setters write.
abbrev pub write_plain : Bytes → Cell → Cell
write_plain value x = record x { t = []; v = value }

abbrev pub write_bool : Bool → Cell → Cell
write_bool value x = record x { t = codes "b"; v = if value then codes "1" else codes "0" }

unfoldable pub set_cell_int : Bytes → ℤ → Worksheet → Result Worksheet
set_cell_int axis value = update_cell (write_plain (itoa value)) axis

unfoldable pub set_cell_bool : Bytes → Bool → Worksheet → Result Worksheet
set_cell_bool axis value = update_cell (write_bool value) axis

unfoldable pub set_cell_default : Bytes → Bytes → Worksheet → Result Worksheet
set_cell_default axis value = update_cell (write_plain value) axis

abbrev pub max_chars : ℕ
max_chars = 32767

unfoldable pub clip : Bytes → Bytes
clip value = if ltb max_chars (length value) then take max_chars value else value

unfoldable pub leading_space : Bytes → Bool
leading_space [] = false
leading_space (c ∷ s) = c == 32

abbrev pub preserve_space : XmlAttr
preserve_space = record {
  space = codes "http://www.w3.org/XML/1998/namespace";
  local = codes "space";
  value = codes "preserve";
}

abbrev pub write_str : Bytes → Cell → Cell
write_str kept x = record x {
  t = codes "str";
  v = kept;
  xml_space = if leading_space kept then preserve_space else x.xml_space;
}

unfoldable pub set_cell_str : Bytes → Bytes → Worksheet → Result Worksheet
set_cell_str axis value = update_cell (write_str (clip value)) axis
