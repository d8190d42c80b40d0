-- ===== src/Settings.antt =====
-- Settings of one worksheet (sheet.go): panes, header and footer, protection, page layout.
pub mod Laws
use excelize.Common.{
  ℕ, Bool, true, false, not, ◌&&◌, Option, none, some, List, [], ◌∷◌, map, leb, if◌then◌else◌,
  length, Bytes, codes, str_eq, Result, ◌>>=◌, field_too_long, ok, err, fault,
}
use excelize.Common.Int.{ℤ, eqb_ℤ, pos}
use excelize.Password.{gen_sheet_passwd}
use excelize.Workbook.Data.{
  Pane, Selection, SheetView, PageSetUp, HeaderFooter, SheetProtection, Parser, File,
}
use excelize.Workbook.Reader.{work_sheet_reader, store_part}

-- The settings that a pane format has, as parseFormatPanesSet reads them from its JSON text.
pub record FormatPanes : Type 0 where
  pub freeze : Bool
  pub split : Bool
  pub x_split : ℤ
  pub y_split : ℤ
  pub top_left_cell : Bytes
  pub active_pane : Bytes
  pub panes : List Selection

abbrev pub pane_of : FormatPanes → Pane
pane_of fs = record {
  active_pane = fs.active_pane;
  state = if fs.freeze then codes "frozen" else [];
  top_left_cell = fs.top_left_cell;
  x_split = fs.x_split;
  y_split = fs.y_split;
}

-- The last view is written; without one the code panics.
unfoldable pub set_last_view : FormatPanes → List SheetView → Result (List SheetView)
set_last_view fs [] = fault
set_last_view fs (v ∷ []) = ok (
    record v {
      pane = if not fs.freeze && not fs.split then none else some (pane_of fs);
      selection = fs.panes;
    }
    ∷ [])
set_last_view fs (v ∷ w ∷ vs) = set_last_view fs (w ∷ vs) >>= λ rest. ok (v ∷ rest)

unfoldable pub set_panes : Parser → Bytes → FormatPanes → File → Result File
unfolding work_sheet_reader set_last_view store_part
set_panes p sheet fs f = do
  o ← work_sheet_reader p sheet f
  views ← set_last_view fs o.part.views
  ok (store_part o.path (record o.part { views = views }) o.file)

-- The loop over the fields 4 to 8: the length that each may not reach is 255.
unfoldable pub check_fields : List (Bytes × Bytes) → Result (Unit {0})
check_fields [] = ok tt
check_fields ((name, value) ∷ rest) =
    if leb 255 (length value) then err (field_too_long name) else check_fields rest

abbrev pub checked_fields : HeaderFooter → List (Bytes × Bytes)
checked_fields s =
    (codes "OddHeader", s.odd_header)
    ∷ (codes "OddFooter", s.odd_footer)
    ∷ (codes "EvenHeader", s.even_header)
    ∷ (codes "EvenFooter", s.even_footer)
    ∷ (codes "FirstFooter", s.first_footer)
    ∷ []

unfoldable pub set_header_footer : Parser → Bytes → Option HeaderFooter → File → Result File
unfolding work_sheet_reader store_part check_fields
set_header_footer p sheet settings f = work_sheet_reader p sheet f >>= λ o. elim settings [
  | none ↦ ok (store_part o.path (record o.part { header_footer = none }) o.file)
  | some s ↦ check_fields (checked_fields s) >>= λ u.
      ok (store_part o.path (record o.part { header_footer = some s }) o.file)
]

-- The password is the list of its runes.
pub record FormatSheetProtection : Type 0 where
  pub auto_filter : Bool
  pub delete_columns : Bool
  pub delete_rows : Bool
  pub edit_objects : Bool
  pub edit_scenarios : Bool
  pub format_cells : Bool
  pub format_columns : Bool
  pub format_rows : Bool
  pub insert_columns : Bool
  pub insert_hyperlinks : Bool
  pub insert_rows : Bool
  pub password : List ℕ
  pub pivot_tables : Bool
  pub select_locked_cells : Bool
  pub select_unlocked_cells : Bool
  pub sort : Bool

abbrev pub default_protection : FormatSheetProtection
default_protection = record {
  auto_filter = false;
  delete_columns = false;
  delete_rows = false;
  edit_objects = true;
  edit_scenarios = true;
  format_cells = false;
  format_columns = false;
  format_rows = false;
  insert_columns = false;
  insert_hyperlinks = false;
  insert_rows = false;
  password = [];
  pivot_tables = false;
  select_locked_cells = true;
  select_unlocked_cells = false;
  sort = false;
}

unfoldable pub protection_of : FormatSheetProtection → SheetProtection
unfolding gen_sheet_passwd
protection_of s = record {
  auto_filter = s.auto_filter;
  delete_columns = s.delete_columns;
  delete_rows = s.delete_rows;
  format_cells = s.format_cells;
  format_columns = s.format_columns;
  format_rows = s.format_rows;
  insert_columns = s.insert_columns;
  insert_hyperlinks = s.insert_hyperlinks;
  insert_rows = s.insert_rows;
  objects = s.edit_objects;
  password = elim s.password [ [] ↦ [] | c ∷ cs ↦ gen_sheet_passwd (c ∷ cs) ];
  pivot_tables = s.pivot_tables;
  scenarios = s.edit_scenarios;
  select_locked_cells = s.select_locked_cells;
  select_unlocked_cells = s.select_unlocked_cells;
  sheet = true;
  sort = s.sort;
}

abbrev pub settings_or : Option FormatSheetProtection → FormatSheetProtection
settings_or none = default_protection
settings_or (some s) = s

unfoldable pub protect_sheet : Parser → Bytes → Option FormatSheetProtection → File → Result File
unfolding work_sheet_reader store_part protection_of
protect_sheet p sheet settings f = do
  o ← work_sheet_reader p sheet f
  let s = settings_or settings
  ok (store_part o.path (record o.part { sheet_protection = some (protection_of s) }) o.file)

unfoldable pub unprotect_sheet : Parser → Bytes → File → Result File
unfolding work_sheet_reader store_part
unprotect_sheet p sheet f = do
  o ← work_sheet_reader p sheet f
  ok (store_part o.path (record o.part { sheet_protection = none }) o.file)

-- The implementations of PageLayoutOption.
pub data PageLayoutOption : Type 0 where
  orientation_option : Bytes → PageLayoutOption
  paper_size_option : ℤ → PageLayoutOption

unfoldable pub set_page_layout_option : PageLayoutOption → PageSetUp → PageSetUp
set_page_layout_option (orientation_option o) ps = record ps { orientation = o }
set_page_layout_option (paper_size_option o) ps = record ps { paper_size = o }

unfoldable pub page_options_loop : List PageLayoutOption → PageSetUp → PageSetUp
unfolding set_page_layout_option
page_options_loop [] ps = ps
page_options_loop (o ∷ os) ps = page_options_loop os (set_page_layout_option o ps)

unfoldable pub get_page_layout_option : PageLayoutOption → Option PageSetUp → PageLayoutOption
unfolding str_eq
get_page_layout_option (orientation_option o) none = orientation_option (codes "portrait")
get_page_layout_option (orientation_option o) (some ps) =
    orientation_option (if str_eq ps.orientation [] then codes "portrait" else ps.orientation)
get_page_layout_option (paper_size_option o) none = paper_size_option (pos 1)
get_page_layout_option (paper_size_option o) (some ps) =
    paper_size_option (if eqb_ℤ ps.paper_size (pos 0) then pos 1 else ps.paper_size)

abbrev pub new_page_set_up : PageSetUp
new_page_set_up = record { orientation = []; paper_size = pos 0 }

abbrev pub page_set_up_or : Option PageSetUp → PageSetUp
page_set_up_or none = new_page_set_up
page_set_up_or (some ps) = ps

unfoldable pub set_page_layout : Parser → Bytes → List PageLayoutOption → File → Result File
unfolding work_sheet_reader store_part page_options_loop
set_page_layout p sheet opts f = do
  o ← work_sheet_reader p sheet f
  let ps = page_set_up_or o.part.page_set_up
  ok (store_part o.path (record o.part { page_set_up = some (page_options_loop opts ps) }) o.file)

unfoldable pub get_page_layout :
    Parser → Bytes → List PageLayoutOption → File → Result (File × List PageLayoutOption)
unfolding work_sheet_reader get_page_layout_option
get_page_layout p sheet opts f = do
  o ← work_sheet_reader p sheet f
  ok (o.file, map (λ k. get_page_layout_option k o.part.page_set_up) opts)
