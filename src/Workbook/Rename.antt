-- ===== src/Workbook/Rename.antt =====
-- SetSheetName: what the indices and the map of names are behind it.
use mathlib.Core.Path.{ap₂}
use excelize.Adjust.Links.{Relationship}
use excelize.Common.{
  ◌≡◌, refl, ap, ◌∙◌, inl, inr, Bool, true, false, ◌||◌, none, some, List, [], ◌∷◌, arith,
  if◌then◌else◌, Bool-cases, Bytes, str_eq, str_eq_refl, sheet_not_exist, err,
}
use excelize.Common.Dict.{Dict, lookup, insert, str_eq_same, lookup-delete}
use excelize.Workbook.Create.{rename_entries, moved_path, rename_map, set_sheet_name}
use excelize.Workbook.Data.{SheetEntry, Parser, File}
use excelize.Workbook.Lookup.{index_loop, get_sheet_index}
use excelize.Workbook.Open.{reader-missing}
use excelize.Workbook.Reader.{work_sheet_reader}
use excelize.Workbook.Trim.{IsName, trim_id}

abbrev pub has_name : Bytes → List SheetEntry → Bool
has_name name [] = false
has_name name (v ∷ vs) = str_eq v.name name || has_name name vs

-- The index of a renamed sheet is found under its new name.
index-rename :
    (old new : Bytes) (vs : List SheetEntry) (rels : List Relationship)
    → has_name new vs ≡ false
    → index_loop (rename_entries old new vs) rels new ≡ index_loop vs rels old
unfolding rename_entries index_loop
index-rename old new [] rels h = refl
index-rename old new (v ∷ vs) rels h =
    let other : str_eq v.name new ≡ false = ground arith in
    let ih = index-rename old new vs rels (ground arith) in
    elim (Bool-cases (str_eq v.name old)) [
      | inl e ↦ rw (e, str_eq_refl new, ih)
      | inr e ↦ rw (e, other, ih)
    ]

index-rename_other :
    (old new name : Bytes) (vs : List SheetEntry) (rels : List Relationship)
    → str_eq old name ≡ false
    → str_eq new name ≡ false
    → index_loop (rename_entries old new vs) rels name ≡ index_loop vs rels name
unfolding rename_entries index_loop
index-rename_other old new name [] rels h h' = refl
index-rename_other old new name (v ∷ vs) rels h h' =
    let ih = index-rename_other old new name vs rels h h' in
    elim (Bool-cases (str_eq v.name old)) [
      | inl e ↦
          let q : str_eq v.name name ≡ false = str_eq_same name old v.name e ∙ h in
          rw (e, h', q, ih)
      | inr e ↦ rw (e, ih)
    ]

renamed_entries :
    (old new : Bytes) (f : File)
    → IsName old
    → IsName new
    → (set_sheet_name old new f).entries ≡ rename_entries old new f.entries
unfolding set_sheet_name
renamed_entries old new f ho hn =
    ap₂ (λ o n. rename_entries o n f.entries) (trim_id old ho) (trim_id new hn)

-- Behind a renaming the sheet is found under its new name with the index that it had, and each other
-- sheet with its own; no sheet may have had the new name.
pub set_sheet_name-index :
    (old new name : Bytes) (f : File)
    → IsName old
    → IsName new
    → has_name new f.entries ≡ false
    → str_eq old name ≡ false
    → str_eq new name ≡ false
    → (get_sheet_index new (set_sheet_name old new f) ≡ get_sheet_index old f)
      × (get_sheet_index name (set_sheet_name old new f) ≡ get_sheet_index name f)
unfolding set_sheet_name
set_sheet_name-index old new name f ho hn fresh h h' = (
  unfold get_sheet_index in
      ap (λ es. index_loop es f.book_rels new) (renamed_entries old new f ho hn)
      ∙ index-rename old new f.entries f.book_rels fresh,
  unfold get_sheet_index in
      ap (λ es. index_loop es f.book_rels name) (renamed_entries old new f ho hn)
      ∙ index-rename_other old new name f.entries f.book_rels h h',
)

-- The old name leaves the map, also when it is the new name too.
lookup-moved_path : (old new : Bytes) (m : Dict Bytes) → lookup old (moved_path old new m) ≡ none
unfolding moved_path
lookup-moved_path old new m =
    lookup-delete old old moved ∙ ap (λ t. if t then none else lookup old moved) (str_eq_refl old)
  where
    moved : Dict Bytes
    moved = insert new (elim (lookup old m) [ none ↦ [] | some path ↦ path ]) m

rename_map-lost :
    (old new : Bytes) (vs : List SheetEntry) (m : Dict Bytes)
    → lookup old m ≡ none
    → lookup old (rename_map old new vs m) ≡ none
unfolding rename_map
rename_map-lost old new [] m h = h
rename_map-lost old new (v ∷ vs) m h = elim (Bool-cases (str_eq v.name old)) [
  | inl e ↦ rw e (rename_map-lost old new vs (moved_path old new m) (lookup-moved_path old new m))
  | inr e ↦ rw e (rename_map-lost old new vs m h)
]

rename_map-gone :
    (old new : Bytes) (vs : List SheetEntry) (m : Dict Bytes)
    → has_name old vs ≡ true
    → lookup old (rename_map old new vs m) ≡ none
unfolding rename_map
rename_map-gone old new [] m h = cc
rename_map-gone old new (v ∷ vs) m h = elim (Bool-cases (str_eq v.name old)) [
  | inl e ↦ rw e (rename_map-lost old new vs (moved_path old new m) (lookup-moved_path old new m))
  | inr e ↦ rw e (rename_map-gone old new vs m (ground arith))
]

-- Renaming a sheet to the name that it has loses it: it cannot be opened any more.
pub set_sheet_name_same :
    (p : Parser) (name : Bytes) (f : File)
    → IsName name
    → has_name name f.entries ≡ true
    → work_sheet_reader p name (set_sheet_name name name f) ≡ err (sheet_not_exist name)
set_sheet_name_same p name f hn h =
    let same = trim_id name hn in
    reader-missing p name (set_sheet_name name name f)
      (unfold set_sheet_name in rw same (rename_map-gone name name f.entries f.sheet_map h))
