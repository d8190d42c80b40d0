-- ===== src/Adjust/Links.antt =====
-- adjustHyperlinks (adjust.go) with deleteSheetRelationships (picture.go). The links that a
-- removal cuts out are cut out of the slice that the loop ranges over.
use excelize.Common.{
  ℕ, zero, suc, Bool, true, false, not, Option, none, some, List, [], ◌∷◌, ltb, if◌then◌else◌,
  length, get_elem?, Bytes, str_eq, Result, ◌>>=◌, ok, fault,
}
use excelize.Common.Int.{ℤ, ◌+ℤ◌, ltb_ℤ, leb_ℤ, eqb_ℤ, pos}
use excelize.Common.Slices.{Slice, slice_of, elements, cut, cut_all}
use excelize.Ref.Cell.{cell_name_to_coordinates, coordinates_to_cell_name, coordinates_or, name_or}
use excelize.Sheet.Data.{Hyperlink, Worksheet}

pub record Relationship : Type 0 where
  pub id : Bytes
  pub target : Bytes
  pub t : Bytes
  pub target_mode : Bytes

-- A worksheet with the relationships of its file.
pub record Linked : Type 0 where
  pub sheet : Worksheet
  pub rels : List Relationship

unfoldable pub delete_sheet_relationships : Bytes → List Relationship → Result (List Relationship)
unfolding cut_all
delete_sheet_relationships rid rels = cut_all (λ v. str_eq v.id rid) rels

-- The links and the relationships while the loop runs; the flag is false once
-- `xlsx.Hyperlinks` is nil.
pub record Links : Type 0 where
  pub links : Slice Hyperlink
  pub present : Bool
  pub rels : List Relationship

abbrev pub hit : Bool → ℤ → ℤ × ℤ → Bool
hit dir num (col_num, row_num) = if dir then eqb_ℤ num row_num else eqb_ℤ num col_num

unfoldable pub remove_link : ℕ → Bytes → Links → Result Links
unfolding delete_sheet_relationships
remove_link i rid l = delete_sheet_relationships rid l.rels >>= λ rels.
    if not l.present
    then fault
    else if ltb 1 l.links.len
    then (cut i l.links >>= λ s. ok (record { links = s; present = true; rels = rels }))
    else ok (record { links = l.links; present = false; rels = rels })

unfoldable pub link_loop : ℕ → ℕ → Bool → ℤ → Links → Result Links
unfolding remove_link coordinates_or
link_loop zero i dir num l = ok l
link_loop (suc rounds) i dir num l = elim (get_elem? l.links.backing i) [
  | none ↦ fault
  | some link_data ↦
      (if hit dir num (coordinates_or (cell_name_to_coordinates link_data.ref))
        then remove_link i link_data.rid l
        else ok l)
      >>= link_loop rounds (suc i) dir num
]

abbrev pub moved_by : Bool → ℤ → ℤ → ℤ × ℤ → Bytes → Bytes
moved_by dir num offset (col_num, row_num) ref =
    if dir
    then (if leb_ℤ num row_num
        then name_or (coordinates_to_cell_name col_num (row_num +ℤ offset))
        else ref)
    else (if leb_ℤ num col_num
        then name_or (coordinates_to_cell_name (col_num +ℤ offset) row_num)
        else ref)

unfoldable pub moved_links : Bool → ℤ → ℤ → List Hyperlink → List Hyperlink
unfolding coordinates_or name_or
moved_links dir num offset [] = []
moved_links dir num offset (l ∷ ls) =
    record l {
      ref = moved_by dir num offset (coordinates_or (cell_name_to_coordinates l.ref)) l.ref;
    }
    ∷ moved_links dir num offset ls

unfoldable pub moved_or_nil : Bool → ℤ → ℤ → Links → Option (List Hyperlink)
unfolding moved_links
moved_or_nil dir num offset l =
    if l.present then some (moved_links dir num offset (elements l.links)) else none

unfoldable pub adjust_some_links : Bool → ℤ → ℤ → List Hyperlink → Linked → Result Linked
unfolding link_loop moved_or_nil
adjust_some_links dir num offset hs x =
    let start : Links = record { links = slice_of hs; present = true; rels = x.rels } in
    (if ltb_ℤ offset (pos 0) then link_loop (length hs) 0 dir num start else ok start) >>= λ l.
    ok (record {
      sheet = record x.sheet { hyperlinks = moved_or_nil dir num offset l };
      rels = l.rels;
    })

unfoldable pub adjust_hyperlinks : Bool → ℤ → ℤ → Linked → Result Linked
unfolding adjust_some_links
adjust_hyperlinks dir num offset x = elim x.sheet.hyperlinks [
  | none ↦ ok x
  | some [] ↦ ok x
  | some (h ∷ hs) ↦ adjust_some_links dir num offset (h ∷ hs) x
]
