-- ===== src/Tests/Workbook.antt =====
-- The workbook at concrete inputs: a file with one sheet that is read, and a file with two.
use excelize.Adjust.Links.{Relationship}
use excelize.Common.{
  ℕ, ◌≡◌, refl, false, none, [], ◌∷◌, arith, take, Bytes, codes, str_eq, sheet_not_exist, ok, err,
  fault,
}
use excelize.Common.Dict.{lookup}
use excelize.Common.Int.{pos}
use excelize.Ref.Decimal.{itoa}
use excelize.Workbook.Create.{
  new_part, max_rel_id, work_sheet_relationship, rel_name, new_sheet, set_sheet_name,
}
use excelize.Workbook.Data.{SheetEntry, Parser, File}
use excelize.Workbook.Hidden.{set_sheet_visible-hide}
use excelize.Workbook.Invariant.{IsBook}
use excelize.Workbook.Lookup.{find_rel, get_sheet_index, lookup_index, get_sheet_map}
use excelize.Workbook.Names.{contains_any, max_name, trim_sheet_name, sheet_path, sheet_target}
use excelize.Workbook.NewSheet.{new_sheet-IsBook}
use excelize.Workbook.Open.{reader_twice}
use excelize.Workbook.Reader.{Opened, work_sheet_reader}
use excelize.Workbook.Rename.{set_sheet_name-index, set_sheet_name_same}
use excelize.Workbook.Trim.{allowed, IsName, trim_sheet_name-IsName}
use excelize.Workbook.Visible.{set_sheet_visible}

abbrev pub no_parser : Parser
no_parser = record { worksheet = λ s. new_part; calc_chain = λ s. []; relationships = λ s. [] }

abbrev sheet_rel : ℕ → Relationship
sheet_rel n = record {
  id = rel_name (pos n);
  target = sheet_target (pos n);
  t = work_sheet_relationship;
  target_mode = [];
}

abbrev entry : Bytes → ℕ → SheetEntry
entry name n = record { name = name; sheet_id = pos n; id = rel_name (pos n); state = [] }

abbrev pub sheet1 : Bytes
sheet1 = codes "Sheet1"

abbrev pub sheet2 : Bytes
sheet2 = codes "Sheet2"

abbrev pub one_sheet : File
one_sheet = record {
  checked = [];
  sheet_map = (sheet1, sheet_path (pos 1)) ∷ [];
  calc_chain = none;
  defaults = [];
  overrides = [];
  drawings = [];
  drawing_rels = [];
  sheets = (sheet_path (pos 1), new_part) ∷ [];
  sheet_count = pos 1;
  active_tabs = [];
  entries = entry sheet1 1 ∷ [];
  book_rels = sheet_rel 1 ∷ [];
  sheet_rels = [];
  parts = [];
}

abbrev pub two_sheets : File
two_sheets = record one_sheet {
  sheet_map = (sheet1, sheet_path (pos 1)) ∷ (sheet2, sheet_path (pos 2)) ∷ [];
  sheets = (sheet_path (pos 1), new_part) ∷ [];
  sheet_count = pos 2;
  entries = entry sheet1 1 ∷ entry sheet2 2 ∷ [];
  book_rels = sheet_rel 1 ∷ sheet_rel 2 ∷ [];
}

one_sheet-IsBook : IsBook one_sheet
unfolding trim_sheet_name find_rel rel_name sheet_path lookup
one_sheet-IsBook = (
  (
    record {
      number = 1;
      rel = sheet_rel 1;
      part = new_part;
      numbered = refl;
      bounded = omega arith;
      related = refl;
      target = refl;
      own_name = refl;
      mapped = refl;
      read = refl;
    },
    tt,
  ),
  (refl, tt),
  (refl, tt),
)

sheet2-IsName : IsName sheet2
unfolding contains_any
sheet2-IsName = (refl, omega arith)

new_sheet-IsBook_example :
    (f' : File) × (new_sheet no_parser sheet2 one_sheet ≡ ok (f', pos 2))
    × IsBook f'
    × (get_sheet_index sheet2 f' ≡ pos 2)
unfolding max_rel_id str_eq rel_name
new_sheet-IsBook_example =
    new_sheet-IsBook no_parser sheet2 one_sheet 1 one_sheet-IsBook sheet2-IsName refl refl
      (omega arith) (omega arith)

trim_sheet_name-IsName_example :
    (trim_sheet_name (codes "a:b") ≡ take max_name (allowed (codes "a:b")))
    × IsName (trim_sheet_name (codes "a:b"))
    × (trim_sheet_name (trim_sheet_name (codes "a:b")) ≡ trim_sheet_name (codes "a:b"))
trim_sheet_name-IsName_example = trim_sheet_name-IsName (codes "a:b")

set_sheet_name-index_example :
    (get_sheet_index (codes "New") (set_sheet_name sheet2 (codes "New") two_sheets)
      ≡ get_sheet_index sheet2 two_sheets)
    × (get_sheet_index sheet1 (set_sheet_name sheet2 (codes "New") two_sheets)
        ≡ get_sheet_index sheet1 two_sheets)
unfolding contains_any str_eq
set_sheet_name-index_example =
    set_sheet_name-index sheet2 (codes "New") sheet1 two_sheets sheet2-IsName (refl, omega arith)
      refl refl refl

set_sheet_name_same_example :
    work_sheet_reader no_parser sheet2 (set_sheet_name sheet2 sheet2 two_sheets)
    ≡ err (sheet_not_exist sheet2)
unfolding str_eq
set_sheet_name_same_example = set_sheet_name_same no_parser sheet2 two_sheets sheet2-IsName refl

set_sheet_visible-hide_example :
    set_sheet_visible no_parser sheet2 false two_sheets ≡ err (sheet_not_exist [])
unfolding get_sheet_map lookup lookup_index str_eq rel_name sheet_target
set_sheet_visible-hide_example =
    set_sheet_visible-hide no_parser sheet2 two_sheets (entry sheet1 1) (entry sheet2 2 ∷ []) refl
      refl refl

opened : Opened
unfolding work_sheet_reader
opened = elim (work_sheet_reader no_parser sheet2 two_sheets) [
  | ok o ↦ o
  | err e ↦ record { file = two_sheets; path = []; part = new_part }
  | fault ↦ record { file = two_sheets; path = []; part = new_part }
]

reader_twice_example : work_sheet_reader no_parser sheet2 opened.file ≡ ok opened
unfolding opened work_sheet_reader str_eq sheet_path itoa
reader_twice_example = reader_twice no_parser sheet2 two_sheets opened refl
