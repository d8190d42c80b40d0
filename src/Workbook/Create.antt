-- ===== src/Workbook/Create.antt =====
-- NewSheet and what it calls, SetSheetName and CopySheet (sheet.go).
use excelize.Adjust.Links.{Relationship}
use excelize.Common.{
  not, ◌||◌, none, some, List, [], ◌∷◌, ◌++◌, if◌then◌else◌, Bytes, codes, str_eq, Result, ◌>>=◌,
  invalid_worksheet_index, ok, err,
}
use excelize.Common.Dict.{Dict, lookup, insert, delete}
use excelize.Common.Int.{ℤ, ◌+ℤ◌, ltb_ℤ, eqb_ℤ, pos}
use excelize.Ref.Decimal.{itoa, atoi_value}
use excelize.Workbook.Active.{unselect_first}
use excelize.Workbook.Data.{zero_view, SheetPart, SheetEntry, Parser, File}
use excelize.Workbook.Delete.{delete_sheet}
use excelize.Workbook.Lookup.{get_sheet_index, get_sheet_name}
use excelize.Workbook.Names.{trim_sheet_name, trim_prefix, sheet_path, sheet_target, rels_path}
use excelize.Workbook.Reader.{save_file_list, work_sheet_reader, store_part}

unfoldable pub max_sheet_id : List SheetEntry → ℤ → ℤ
max_sheet_id [] id = id
max_sheet_id (v ∷ vs) id = max_sheet_id vs (if ltb_ℤ id v.sheet_id then v.sheet_id else id)

unfoldable pub set_content_types : ℤ → File → File
unfolding sheet_target
set_content_types index f = record f {
  overrides =
      f.overrides
      ++ record {
        part_name = codes "/xl/" ++ sheet_target index;
        content_type =
            codes "application/vnd.openxmlformats-officedocument.spreadsheetml.worksheet+xml";
      }
        ∷ [];
}

-- The zero worksheet with its dimension and one view.
abbrev pub new_part : SheetPart
new_part = record {
  grid = record {
    cols = none;
    rows = [];
    auto_filter = none;
    merge_cells = none;
    hyperlinks = none;
  };
  views = zero_view ∷ [];
  page_set_up = none;
  drawing = none;
  legacy_drawing = none;
  picture = none;
  table_parts = none;
  header_footer = none;
  sheet_protection = none;
  dimension = codes "A1";
}

unfoldable pub set_sheet : ℤ → Bytes → File → File
unfolding trim_sheet_name sheet_path insert
set_sheet index name f = record f {
  sheet_map = insert (trim_sheet_name name) (sheet_path index) f.sheet_map;
  sheets = insert (sheet_path index) new_part f.sheets;
}

unfoldable pub max_rel_id : List Relationship → ℤ → ℤ
unfolding atoi_value trim_prefix
max_rel_id [] rid = rid
max_rel_id (v ∷ vs) rid =
    let t = atoi_value (trim_prefix v.id (codes "rId")) in
    max_rel_id vs (if ltb_ℤ rid t then t else rid)

abbrev pub work_sheet_relationship : Bytes
work_sheet_relationship =
    codes "http://schemas.openxmlformats.org/officeDocument/2006/relationships/worksheet"

unfoldable pub rel_name : ℤ → Bytes
unfolding itoa
rel_name rid = codes "rId" ++ itoa rid

unfoldable pub add_xlsx_workbook_rels : ℤ → File → File × ℤ
unfolding max_rel_id rel_name sheet_target
add_xlsx_workbook_rels sheet f =
    let rid = max_rel_id f.book_rels (pos 0) +ℤ pos 1 in
    (
      record f {
        book_rels =
            f.book_rels
            ++ record {
              id = rel_name rid;
              target = sheet_target sheet;
              t = work_sheet_relationship;
              target_mode = [];
            }
              ∷ [];
      },
      rid,
    )

unfoldable pub set_workbook : Bytes → ℤ → ℤ → File → File
unfolding trim_sheet_name rel_name
set_workbook name sheet_id rid f = record f {
  entries =
      f.entries
      ++ record { name = trim_sheet_name name; sheet_id = sheet_id; id = rel_name rid; state = [] }
        ∷ [];
}

abbrev pub template_docprops_app : Bytes
template_docprops_app =
    codes
      "<Properties xmlns=\"http://schemas.openxmlformats.org/officeDocument/2006/extended-properties\" xmlns:vt=\"http://schemas.openxmlformats.org/officeDocument/2006/docPropsVTypes\"><TotalTime>0</TotalTime><Application>Go Excelize</Application></Properties>"

unfoldable pub set_app_xml : File → File
unfolding save_file_list
set_app_xml = save_file_list (codes "docProps/app.xml") template_docprops_app

-- What NewSheet does behind DeleteSheet.
unfoldable pub append_sheet : Bytes → File → File × ℤ
unfolding max_sheet_id set_app_xml set_content_types set_sheet add_xlsx_workbook_rels set_workbook
append_sheet name f =
    let sheet_id = max_sheet_id f.entries (pos 0) +ℤ pos 1 in
    let counted = record f { sheet_count = f.sheet_count +ℤ pos 1 } in
    let (f', rid) =
      add_xlsx_workbook_rels sheet_id
        (set_sheet sheet_id name (set_content_types sheet_id (set_app_xml counted))) in
    (set_workbook name sheet_id rid f', sheet_id)

unfoldable pub new_sheet : Parser → Bytes → File → Result (File × ℤ)
unfolding get_sheet_index delete_sheet append_sheet
new_sheet p name f =
    if not (eqb_ℤ (get_sheet_index name f) (pos 0))
    then ok (f, f.sheet_count)
    else (delete_sheet p name f >>= λ f'. ok (append_sheet name f'))

-- The loop of SetSheetName, on the entries and on the map, which do not read each other.
unfoldable pub rename_entries : Bytes → Bytes → List SheetEntry → List SheetEntry
unfolding str_eq
rename_entries old new [] = []
rename_entries old new (v ∷ vs) =
    record v { name = if str_eq v.name old then new else v.name } ∷ rename_entries old new vs

-- `f.sheetMap[newName] = f.sheetMap[oldName]; delete(f.sheetMap, oldName)`.
unfoldable pub moved_path : Bytes → Bytes → Dict Bytes → Dict Bytes
unfolding lookup insert delete
moved_path old new m =
    delete old (insert new (elim (lookup old m) [ none ↦ [] | some path ↦ path ]) m)

unfoldable pub rename_map : Bytes → Bytes → List SheetEntry → Dict Bytes → Dict Bytes
unfolding moved_path str_eq
rename_map old new [] m = m
rename_map old new (v ∷ vs) m =
    rename_map old new vs (if str_eq v.name old then moved_path old new m else m)

unfoldable pub set_sheet_name : Bytes → Bytes → File → File
unfolding rename_entries rename_map trim_sheet_name
set_sheet_name old_name new_name f =
    let old = trim_sheet_name old_name in
    let new = trim_sheet_name new_name in
    record f {
      entries = rename_entries old new f.entries;
      sheet_map = rename_map old new f.entries f.sheet_map;
    }

-- A worksheet is copied deeply: the copy shares nothing with it.
unfoldable pub copied : SheetPart → SheetPart
copied x = record x {
  views = unselect_first x.views;
  drawing = none;
  table_parts = none;
  page_set_up = none;
}

unfoldable pub copy_rels : ℤ → ℤ → Dict Bytes → Dict Bytes
unfolding lookup insert rels_path
copy_rels from_index to_index parts = elim (lookup (rels_path from_index) parts) [
  | none ↦ parts
  | some content ↦ insert (rels_path to_index) content parts
]

unfoldable pub copy_sheet_part : Parser → ℤ → ℤ → File → Result File
unfolding work_sheet_reader get_sheet_name copied copy_rels store_part sheet_path
copy_sheet_part p from_index to_index f = do
  o ← work_sheet_reader p (get_sheet_name from_index f) f
  let f' = store_part (sheet_path to_index) (copied o.part) o.file
  ok (record f' { parts = copy_rels from_index to_index f'.parts })

unfoldable pub copy_sheet : Parser → ℤ → ℤ → File → Result File
unfolding get_sheet_name copy_sheet_part str_eq
copy_sheet p from_index to_index f =
    if ltb_ℤ from_index (pos 1)
      || ltb_ℤ to_index (pos 1)
      || eqb_ℤ from_index to_index
      || str_eq (get_sheet_name from_index f) []
      || str_eq (get_sheet_name to_index f) []
    then err invalid_worksheet_index
    else copy_sheet_part p from_index to_index f
