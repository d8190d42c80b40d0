-- ===== src/Links.antt =====
-- GetCellHyperLink and SetCellHyperLink (cell.go).
pub mod Laws
use excelize.Common.{
  Bool, true, false, Option, none, some, List, [], ◌∷◌, ◌++◌, ltb, if◌then◌else◌, length, Bytes,
  codes, str_eq, Result, ◌>>=◌, invalid_link_type, too_many_hyperlinks, ok, err,
}
use excelize.Merge.{merge_cells_parser}
use excelize.Parts.{add_sheet_relationships, get_sheet_relationships_target_by_id}
use excelize.Ref.Cell.{split_cell_name}
use excelize.Sheet.Data.{Hyperlink}
use excelize.Workbook.Create.{rel_name}
use excelize.Workbook.Data.{SheetPart, Parser, File}
use excelize.Workbook.Reader.{Opened, work_sheet_reader, store_part}

-- The first link of the cell.
unfoldable pub first_link : Bytes → List Hyperlink → Option Hyperlink
unfolding str_eq
first_link axis [] = none
first_link axis (l ∷ ls) = if str_eq l.ref axis then some l else first_link axis ls

abbrev pub links_or : Option (List Hyperlink) → List Hyperlink
links_or none = []
links_or (some ls) = ls

unfoldable pub link_target : Parser → Bytes → Option Hyperlink → File → File × Bool × Bytes
unfolding get_sheet_relationships_target_by_id str_eq
link_target p sheet none f = (f, false, [])
link_target p sheet (some l) f =
    if str_eq l.rid []
    then (f, true, l.location)
    else (let (f', target) = get_sheet_relationships_target_by_id p sheet l.rid f in
        (f', true, target))

unfoldable pub get_cell_hyper_link : Parser → Bytes → Bytes → File → Result (File × Bool × Bytes)
unfolding split_cell_name work_sheet_reader merge_cells_parser first_link link_target
get_cell_hyper_link p sheet axis f = do
  name ← split_cell_name axis
  o ← work_sheet_reader p sheet f
  cell ← merge_cells_parser o.part.grid axis
  ok (link_target p sheet (first_link cell (links_or o.part.grid.hyperlinks)) o.file)

pub data LinkType : Type 0 where
  external : LinkType
  location : LinkType
  other_type : Bytes → LinkType

abbrev pub hyper_link_relationship : Bytes
hyper_link_relationship =
    codes "http://schemas.openxmlformats.org/officeDocument/2006/relationships/hyperlink"

abbrev pub with_link : Hyperlink → SheetPart → SheetPart
with_link l x = record x {
  grid = record x.grid { hyperlinks = some (links_or x.grid.hyperlinks ++ l ∷ []) };
}

-- The links of a worksheet are at most 65530.
unfoldable pub append_link : Parser → Bytes → Bytes → Bytes → LinkType → Opened → Result File
unfolding add_sheet_relationships rel_name store_part
append_link p sheet cell link (other_type t) o = err (invalid_link_type t)
append_link p sheet cell link location o =
    let l : Hyperlink = record { ref = cell; location = link; display = []; rid = [] } in
    ok (store_part o.path (with_link l o.part) o.file)
append_link p sheet cell link external o =
    let (f', rid) =
      add_sheet_relationships p sheet hyper_link_relationship link (codes "External") o.file in
    let l : Hyperlink = record { ref = cell; location = []; display = []; rid = rel_name rid } in
    ok (store_part o.path (with_link l o.part) f')

unfoldable pub set_cell_hyper_link : Parser → Bytes → Bytes → Bytes → LinkType → File → Result File
unfolding split_cell_name work_sheet_reader merge_cells_parser append_link
set_cell_hyper_link p sheet axis link link_type f = do
  name ← split_cell_name axis
  o ← work_sheet_reader p sheet f
  cell ← merge_cells_parser o.part.grid axis
  if ltb 65529 (length (links_or o.part.grid.hyperlinks))
      then err too_many_hyperlinks
      else append_link p sheet cell link link_type o
