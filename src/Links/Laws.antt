-- ===== src/Links/Laws.antt =====
-- A link that is set is read, unless its cell has one already.
use excelize.Common.{
  ◌<◌, ◌≡◌, refl, ap, ◌∙◌, Bool, true, false, Option, none, some, List, [], ◌∷◌, ◌++◌, arith, ltb,
  if◌then◌else◌, length, Bytes, str_eq, str_eq_refl, ok,
}
use excelize.Common.Int.{ℤ}
use excelize.Links.{
  first_link, links_or, link_target, get_cell_hyper_link, with_link, append_link,
  set_cell_hyper_link, location,
}
use excelize.Merge.{merge_cells_parser}
use excelize.Ref.Cell.{split_cell_name}
use excelize.Sheet.Data.{Hyperlink, Worksheet}
use excelize.Workbook.Data.{Parser, File}
use excelize.Workbook.Reader.{Opened, work_sheet_reader, store_part}
use excelize.Workbook.Stored.{reader-store_part}

first_link-append :
    (cell : Bytes) (ls : List Hyperlink) (l : Hyperlink)
    → l.ref ≡ cell
    → first_link cell (ls ++ l ∷ [])
      ≡ (elim (first_link cell ls) [ none ↦ some l | some x ↦ some x ])
unfolding first_link
first_link-append cell [] l e = rw (e, str_eq_refl cell) refl
first_link-append cell (x ∷ ls) l e = by_test (str_eq x.ref cell) (first_link-append cell ls l e)
  where
    by_test :
        (t : Bool)
        → first_link cell (ls ++ l ∷ [])
          ≡ (elim (first_link cell ls) [ none ↦ some l | some x ↦ some x ])
        → (if t then some x else first_link cell (ls ++ l ∷ []))
          ≡ (elim (if t then some x else first_link cell ls) as (λ q. Option Hyperlink) [
            | none ↦ some l
            | some x ↦ some x
          ])
    by_test true h = refl
    by_test false h = h

parser_same :
    (xlsx : Worksheet) (ls : List Hyperlink) (axis : Bytes)
    → merge_cells_parser (record xlsx { hyperlinks = some ls }) axis ≡ merge_cells_parser xlsx axis
unfolding merge_cells_parser
parser_same xlsx ls axis = refl

abbrev pub new_link : Bytes → Bytes → Hyperlink
new_link cell link = record { ref = cell; location = link; display = []; rid = [] }

-- The first link that the cell had is one with a place in the workbook, or there was none.
abbrev pub NoTarget : Option Hyperlink → Type 0
NoTarget none = Unit
NoTarget (some x) = x.rid ≡ []

-- The place that is read behind the setter.
abbrev pub place : Bytes → Option Hyperlink → Bytes
place link none = link
place link (some x) = x.location

link_target-place :
    (p : Parser) (sheet cell link : Bytes) (q : Option Hyperlink) (f : File)
    → NoTarget q
    → link_target p sheet (elim q [ none ↦ some (new_link cell link) | some x ↦ some x ]) f
      ≡ (f, true, place link q)
unfolding link_target str_eq
link_target-place p sheet cell link none f h = refl
link_target-place p sheet cell link (some x) f h = rw h refl

-- SetCellHyperLink with a place in the workbook, for a cell of a worksheet that can be read and has
-- fewer than 65530 links, succeeds. If the cell had no link, GetCellHyperLink then reads the place
-- that was set; if the first one it had is a place in the workbook, it reads that place still.
pub get-set_cell_hyper_link :
    (p : Parser) (sheet axis link : Bytes) (f : File) (o : Opened) (name : Bytes × ℤ) (cell : Bytes)
    → split_cell_name axis ≡ ok name
    → work_sheet_reader p sheet f ≡ ok o
    → merge_cells_parser o.part.grid axis ≡ ok cell
    → length (links_or o.part.grid.hyperlinks) < 65530
    → NoTarget (first_link cell (links_or o.part.grid.hyperlinks))
    → (f' : File) × (set_cell_hyper_link p sheet axis link location f ≡ ok f')
      × (get_cell_hyper_link p sheet axis f'
          ≡ ok (f', true, place link (first_link cell (links_or o.part.grid.hyperlinks))))
unfolding set_cell_hyper_link get_cell_hyper_link append_link
get-set_cell_hyper_link p sheet axis link f o name cell es h em le inside =
    let l = new_link cell link in
    let x = with_link l o.part in
    let few : ltb 65529 (length (links_or o.part.grid.hyperlinks)) ≡ false = ground arith in
    let same = parser_same o.part.grid (links_or o.part.grid.hyperlinks ++ l ∷ []) axis ∙ em in
    (
      store_part o.path x o.file,
      rw (es, h, em, few) refl,
      rw
          (
            es,
            reader-store_part p sheet x f o h,
            same,
            first_link-append cell (links_or o.part.grid.hyperlinks) l refl,
          )
          (ap ok (
            link_target-place p sheet cell link (first_link cell (links_or o.part.grid.hyperlinks))
              (store_part o.path x o.file) inside)),
    )
