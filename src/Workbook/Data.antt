-- ===== src/Workbook/Data.antt =====
-- The state of a File (excelize.go) that the operations on sheets read or write. WorkBook,
-- WorkBookRels and ContentTypes are taken as loaded: NewFile loads them, and behind OpenFile their
-- readers (workbookReader, workbookRelsReader, contentTypesReader) load them at the first use.
use excelize.Adjust.Links.{Relationship}
use excelize.Common.{ℕ, Bool, false, Option, none, List, [], Bytes}
use excelize.Common.Dict.{Dict}
use excelize.Common.Int.{ℤ}
use excelize.Sheet.Data.{Worksheet}

pub record Pane : Type 0 where
  pub active_pane : Bytes
  pub state : Bytes
  pub top_left_cell : Bytes
  pub x_split : ℤ
  pub y_split : ℤ

pub record Selection : Type 0 where
  pub active_cell : Bytes
  pub pane : Bytes
  pub sqref : Bytes

-- The zoom is the pattern of its 64 bits; XSplit and YSplit are floats that hold ints.
pub record SheetView : Type 0 where
  pub default_grid_color : Option Bool
  pub right_to_left : Bool
  pub show_formulas : Bool
  pub show_grid_lines : Option Bool
  pub show_row_col_headers : Option Bool
  pub tab_selected : Bool
  pub top_left_cell : Bytes
  pub zoom_scale : ℕ
  pub pane : Option Pane
  pub selection : List Selection

-- `xlsxSheetView{}`.
abbrev pub zero_view : SheetView
zero_view = record {
  default_grid_color = none;
  right_to_left = false;
  show_formulas = false;
  show_grid_lines = none;
  show_row_col_headers = none;
  tab_selected = false;
  top_left_cell = [];
  zoom_scale = 0;
  pane = none;
  selection = [];
}

pub record PageSetUp : Type 0 where
  pub orientation : Bytes
  pub paper_size : ℤ

pub record HeaderFooter : Type 0 where
  pub align_with_margins : Bool
  pub different_first : Bool
  pub different_odd_even : Bool
  pub scale_with_doc : Bool
  pub odd_header : Bytes
  pub odd_footer : Bytes
  pub even_header : Bytes
  pub even_footer : Bytes
  pub first_footer : Bytes
  pub first_header : Bytes

-- The fields that ProtectSheet writes.
pub record SheetProtection : Type 0 where
  pub auto_filter : Bool
  pub delete_columns : Bool
  pub delete_rows : Bool
  pub format_cells : Bool
  pub format_columns : Bool
  pub format_rows : Bool
  pub insert_columns : Bool
  pub insert_hyperlinks : Bool
  pub insert_rows : Bool
  pub objects : Bool
  pub password : Bytes
  pub pivot_tables : Bool
  pub scenarios : Bool
  pub select_locked_cells : Bool
  pub select_unlocked_cells : Bool
  pub sheet : Bool
  pub sort : Bool

-- The worksheet of a file: its grid, and the other fields that operations on sheets touch.
pub record SheetPart : Type 0 where
  pub grid : Worksheet
  pub views : List SheetView
  pub page_set_up : Option PageSetUp
  pub drawing : Option Bytes
  pub legacy_drawing : Option Bytes
  pub picture : Option Bytes
  pub table_parts : Option (List Bytes)
  pub header_footer : Option HeaderFooter
  pub sheet_protection : Option SheetProtection
  pub dimension : Bytes

-- xlsxSheet: an entry of the workbook's list.
pub record SheetEntry : Type 0 where
  pub name : Bytes
  pub sheet_id : ℤ
  pub id : Bytes
  pub state : Bytes

pub record Override : Type 0 where
  pub part_name : Bytes
  pub content_type : Bytes

pub record CalcChainCell : Type 0 where
  pub r : Bytes
  pub i : ℤ

-- What encoding/xml makes of the bytes of a part, with namespaceStrictToTransitional before it.
pub record Parser : Type 0 where
  pub worksheet : Bytes → SheetPart
  pub calc_chain : Bytes → List CalcChainCell
  pub relationships : Bytes → List Relationship

-- Of the drawings only the paths are kept, which countDrawings reads.
pub record File : Type 0 where
  pub checked : Dict Bool
  pub sheet_map : Dict Bytes
  pub calc_chain : Option (List CalcChainCell)
  pub defaults : List (Bytes × Bytes)
  pub overrides : List Override
  pub drawings : List Bytes
  pub drawing_rels : Dict (List Relationship)
  pub sheets : Dict SheetPart
  pub sheet_count : ℤ
  pub active_tabs : List ℤ
  pub entries : List SheetEntry
  pub book_rels : List Relationship
  pub sheet_rels : Dict (List Relationship)
  pub parts : Dict Bytes
