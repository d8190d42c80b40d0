-- ===== src/Workbook/Delete.antt =====
-- DeleteSheet and what it calls: deleteSheetFromWorkbookRels, deleteSheetFromContentTypes (sheet.go)
-- and deleteCalcChain (calcchain.go).
-- The list without the first relationship that has the id, and the target of that one.
use excelize.Adjust.Links.{Relationship}
use excelize.Common.{
  ℕ, zero, suc, Bool, not, ◌&&◌, ◌||◌, none, some, List, [], ◌∷◌, ◌++◌, ltb, if◌then◌else◌, length,
  get_elem?, Bytes, codes, str_eq, Result, ◌>>=◌, ok, fault,
}
use excelize.Common.Dict.{delete}
use excelize.Common.Int.{ℤ, ◌-ℤ◌, eqb_ℤ, pos}
use excelize.Common.Slices.{Slice, slice_of, elements, cut, cut_all}
use excelize.Workbook.Active.{set_active_sheet}
use excelize.Workbook.Data.{SheetEntry, Override, CalcChainCell, Parser, File}
use excelize.Workbook.Lookup.{get_sheet_map}
use excelize.Workbook.Names.{trim_sheet_name, sheet_path, rels_path}
use excelize.Workbook.Reader.{read_xml}

unfoldable pub delete_sheet_from_workbook_rels :
    Bytes → List Relationship → List Relationship × Bytes
unfolding str_eq
delete_sheet_from_workbook_rels rid [] = ([], [])
delete_sheet_from_workbook_rels rid (v ∷ vs) =
    let rest = delete_sheet_from_workbook_rels rid vs in
    if str_eq v.id rid then (vs, v.target) else (v ∷ rest.0, rest.1)

unfoldable pub delete_sheet_from_content_types : Bytes → List Override → Result (List Override)
unfolding cut_all
delete_sheet_from_content_types target = cut_all (λ v. str_eq v.part_name (codes "/xl/" ++ target))

unfoldable pub keeps_cell : ℤ → Bytes → CalcChainCell → Bool
unfolding str_eq
keeps_cell index axis c =
    not ((eqb_ℤ c.i index && str_eq c.r axis) || (eqb_ℤ c.i index && str_eq axis []))

-- The method Filter.
unfoldable pub filter_cells : (CalcChainCell → Bool) → List CalcChainCell → List CalcChainCell
filter_cells fn [] = []
filter_cells fn (c ∷ cs) = let rest = filter_cells fn cs in if fn c then c ∷ rest else rest

unfoldable pub calc_chain_reader : Parser → File → List CalcChainCell
unfolding read_xml
calc_chain_reader p f = elim f.calc_chain [
  | some cs ↦ cs
  | none ↦ p.calc_chain (read_xml (codes "xl/calcChain.xml") f)
]

-- A chain without cells goes, with its part and its content types.
unfoldable pub store_chain : List CalcChainCell → File → Result File
unfolding cut_all delete
store_chain [] f =
    cut_all (λ v. str_eq v.part_name (codes "/xl/calcChain.xml")) f.overrides >>= λ overrides.
    ok (record f {
      calc_chain = none;
      parts = delete (codes "xl/calcChain.xml") f.parts;
      overrides = overrides;
    })
store_chain (c ∷ cs) f = ok (record f { calc_chain = some (c ∷ cs) })

unfoldable pub delete_calc_chain : Parser → ℤ → Bytes → File → Result File
unfolding store_chain filter_cells keeps_cell calc_chain_reader
delete_calc_chain p index axis f =
    store_chain (filter_cells (keeps_cell index axis) (calc_chain_reader p f)) f

-- The part of the loop's body behind the cut: all but the list of entries. The map of names loses
-- the name as it was given, not as it is trimmed.
unfoldable pub forget_sheet : Parser → Bytes → SheetEntry → File → Result File
unfolding delete_sheet_from_workbook_rels delete_sheet_from_content_types delete_calc_chain
    sheet_path rels_path delete
forget_sheet p name v f =
    let (rels, target) = delete_sheet_from_workbook_rels v.id f.book_rels in
    delete_sheet_from_content_types target f.overrides >>= λ overrides.
    delete_calc_chain p v.sheet_id [] (record f { book_rels = rels; overrides = overrides })
    >>= λ f'. ok (record f' {
      sheet_map = delete name f'.sheet_map;
      parts = delete (rels_path v.sheet_id) (delete (sheet_path v.sheet_id) f'.parts);
      sheets = delete (sheet_path v.sheet_id) f'.sheets;
      sheet_count = f'.sheet_count -ℤ pos 1;
    })

unfoldable pub delete_round :
    Parser → Bytes → ℕ → SheetEntry → Slice SheetEntry → File → Result (Slice SheetEntry × File)
unfolding forget_sheet trim_sheet_name str_eq
delete_round p name i v s f =
    if str_eq v.name (trim_sheet_name name) && ltb 1 s.len
    then (cut i s >>= λ s'. forget_sheet p name v f >>= λ f'. ok (s', f'))
    else ok (s, f)

unfoldable pub delete_loop :
    Parser → Bytes → ℕ → ℕ → Slice SheetEntry → File → Result (Slice SheetEntry × File)
unfolding delete_round
delete_loop p name zero i s f = ok (s, f)
delete_loop p name (suc rounds) i s f = elim (get_elem? s.backing i) [
  | none ↦ fault
  | some v ↦ delete_round p name i v s f >>= λ r. delete_loop p name rounds (suc i) r.0 r.1
]

unfoldable pub delete_sheet : Parser → Bytes → File → Result File
unfolding delete_loop get_sheet_map set_active_sheet
delete_sheet p name f = delete_loop p name (length f.entries) 0 (slice_of f.entries) f >>= λ r.
    let f' = record r.1 { entries = elements r.0 } in
    set_active_sheet p (pos (length (get_sheet_map f'))) f'
