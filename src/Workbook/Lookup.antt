-- ===== src/Workbook/Lookup.antt =====
-- GetSheetIndex, GetSheetName, GetSheetMap and getSheetMap (sheet.go).
-- The first relationship with an id.
use excelize.Adjust.Links.{Relationship}
use excelize.Common.{
  Option, none, some, List, [], ◌∷◌, if◌then◌else◌, length, drop, Bytes, codes, str_eq,
}
use excelize.Common.Dict.{Dict, insert}
use excelize.Common.Int.{ℤ, eqb_ℤ, pos}
use excelize.Ref.Decimal.{atoi_value}
use excelize.Workbook.Data.{SheetEntry, File}
use excelize.Workbook.Names.{has_prefix, trim_suffix, sheet_path, target_index}

unfoldable pub find_rel : Bytes → List Relationship → Option Relationship
unfolding str_eq
find_rel id [] = none
find_rel id (r ∷ rs) = if str_eq id r.id then some r else find_rel id rs

abbrev pub index_or : Option Relationship → ℤ → ℤ
index_or none rest = rest
index_or (some r) rest = target_index r.target

unfoldable pub index_loop : List SheetEntry → List Relationship → Bytes → ℤ
unfolding find_rel target_index
index_loop [] rels name = pos 0
index_loop (v ∷ vs) rels name =
    let rest = index_loop vs rels name in
    if str_eq v.name name then index_or (find_rel v.id rels) rest else rest

unfoldable pub get_sheet_index : Bytes → File → ℤ
unfolding index_loop
get_sheet_index name f = index_loop f.entries f.book_rels name

unfoldable pub entry_with_id : List SheetEntry → Bytes → Option Bytes
unfolding str_eq
entry_with_id [] id = none
entry_with_id (v ∷ vs) id = if str_eq v.id id then some v.name else entry_with_id vs id

unfoldable pub name_loop : List Relationship → List SheetEntry → ℤ → Bytes
unfolding entry_with_id target_index
name_loop [] entries index = []
name_loop (r ∷ rs) entries index =
    let rest = name_loop rs entries index in
    if eqb_ℤ (target_index r.target) index
    then elim (entry_with_id entries r.id) [ some name ↦ name | none ↦ rest ]
    else rest

unfoldable pub get_sheet_name : ℤ → File → Bytes
unfolding name_loop
get_sheet_name index f = name_loop f.book_rels f.entries index

-- A map from ints: a write replaces the entry that is there.
unfoldable pub insert_index : ℤ → Bytes → List (ℤ × Bytes) → List (ℤ × Bytes)
insert_index k v [] = (k, v) ∷ []
insert_index k v ((k', w) ∷ d) = if eqb_ℤ k' k then (k, v) ∷ d else (k', w) ∷ insert_index k v d

unfoldable pub lookup_index : ℤ → List (ℤ × Bytes) → Bytes
lookup_index j [] = []
lookup_index j ((k, v) ∷ d) = if eqb_ℤ k j then v else lookup_index j d

-- What stands behind the first occurrence of `sep`: the second part of `strings.SplitN(s, sep, 2)`.
unfoldable pub behind : Bytes → Bytes → Option Bytes
unfolding has_prefix
behind [] sep = if has_prefix [] sep then some [] else none
behind (c ∷ s) sep =
    if has_prefix (c ∷ s) sep then some (drop (length sep) (c ∷ s)) else behind s sep

unfoldable pub map_rels : SheetEntry → List Relationship → List (ℤ × Bytes) → List (ℤ × Bytes)
unfolding str_eq behind insert_index trim_suffix atoi_value
map_rels v [] m = m
map_rels v (r ∷ rs) m = map_rels v rs (elim (behind r.target (codes "worksheets/sheet")) [
  | none ↦ m
  | some rest ↦
      if str_eq r.id v.id
      then insert_index (atoi_value (trim_suffix rest (codes ".xml"))) v.name m
      else m
])

unfoldable pub map_entries :
    List SheetEntry → List Relationship → List (ℤ × Bytes) → List (ℤ × Bytes)
unfolding map_rels
map_entries [] rels m = m
map_entries (v ∷ vs) rels m = map_entries vs rels (map_rels v rels m)

-- The order of the list stands for the order in which Go's map is ranged over.
unfoldable pub get_sheet_map : File → List (ℤ × Bytes)
unfolding map_entries
get_sheet_map f = map_entries f.entries f.book_rels []

unfoldable pub paths_of : List (ℤ × Bytes) → Dict Bytes → Dict Bytes
unfolding sheet_path insert
paths_of [] maps = maps
paths_of ((idx, name) ∷ m) maps = paths_of m (insert name (sheet_path idx) maps)

-- getSheetMap: the paths by the names.
unfoldable pub sheet_paths : File → Dict Bytes
unfolding paths_of get_sheet_map
sheet_paths f = paths_of (get_sheet_map f) []
