-- ===== src/Workbook/Reader.antt =====
-- readXML, saveFileList (lib.go) and workSheetReader (excelize.go).
use excelize.Adjust.Check.{check_sheet, check_row}
use excelize.Common.{
  true, false, none, some, [], ◌++◌, if◌then◌else◌, Bytes, codes, Result, ◌>>=◌, sheet_not_exist,
  ok, err,
}
use excelize.Common.Dict.{lookup, insert}
use excelize.Workbook.Data.{SheetPart, Parser, File}
use excelize.Workbook.Names.{trim_sheet_name}

unfoldable pub read_xml : Bytes → File → Bytes
unfolding lookup
read_xml name f = elim (lookup name f.parts) [ none ↦ [] | some content ↦ content ]

abbrev pub xml_header : Bytes
xml_header = codes "<?xml version=\"1.0\" encoding=\"UTF-8\" standalone=\"yes\"?>\n"

unfoldable pub save_file_list : Bytes → Bytes → File → File
unfolding insert
save_file_list name content f = record f { parts = insert name (xml_header ++ content) f.parts }

-- A sheet that has been read, with its path.
pub record Opened : Type 0 where
  pub file : File
  pub path : Bytes
  pub part : SheetPart

-- A worksheet is checked once after it is read.
unfoldable pub checked_part : Bytes → SheetPart → File → Result (File × SheetPart)
unfolding check_sheet check_row
checked_part name x f =
    if elim (lookup name f.checked) [ none ↦ false | some b ↦ b ]
    then ok (f, x)
    else (check_row (check_sheet x.grid) >>= λ grid.
        ok (record f { checked = insert name true f.checked }, record x { grid = grid }))

unfoldable pub load_part : Parser → Bytes → File → Result Opened
unfolding read_xml checked_part
load_part p name f = do
  (f', x) ← checked_part name (p.worksheet (read_xml name f)) f
  ok (record { file = record f' { sheets = insert name x f'.sheets }; path = name; part = x })

unfoldable pub work_sheet_reader : Parser → Bytes → File → Result Opened
unfolding load_part trim_sheet_name lookup insert
work_sheet_reader p sheet f = elim (lookup (trim_sheet_name sheet) f.sheet_map) [
  | none ↦ err (sheet_not_exist sheet)
  | some name ↦ elim (lookup name f.sheets) [
    | some x ↦ ok (record { file = f; path = name; part = x })
    | none ↦ load_part p name f
  ]
]

-- A write through the pointer that workSheetReader returns.
unfoldable pub store_part : Bytes → SheetPart → File → File
unfolding insert
store_part path x f = record f { sheets = insert path x f.sheets }
