-- ===== src/Workbook/Fresh.antt =====
-- NewSheet with a name that no sheet has.
use mathlib.Core.Path.{subst}
use mathlib.Core.Option.{some-injective}
use excelize.Adjust.Links.{Relationship}
use excelize.Common.{
  ℕ, zero, suc, ◌+◌, ◌≡◌, refl, ap, ◌∙◌, inl, inr, Bool, true, false, Option, none, some, List, [],
  ◌∷◌, arith, if◌then◌else◌, Bool-cases, length, get_elem?, take, get_elem?-lt, Bytes, codes,
  str_eq, ◌>>=◌, ok,
}
use excelize.Common.Dict.{Dict}
use excelize.Common.Int.{ℤ, ltb_ℤ, eqb_ℤ, pos}
use excelize.Common.Slices.{Slice, slice_of, elements}
use excelize.Ref.Decimal.{atoi_value}
use excelize.Workbook.Active.{tab_loop, set_active_sheet}
use excelize.Workbook.Data.{SheetPart, SheetEntry, Parser, File}
use excelize.Workbook.Delete.{delete_round, delete_loop, delete_sheet}
use excelize.Workbook.Lookup.{insert_index, behind, map_rels, map_entries, get_sheet_map}
use excelize.Workbook.Names.{trim_sheet_name, trim_suffix}
use excelize.Workbook.Open.{IsOpen, AllOpen, select_loop-IsOpen}
use excelize.Workbook.Rename.{has_name}

insert_index-AllOpen :
    (sm : Dict Bytes) (ss : Dict SheetPart) (k : ℤ) (n : Bytes) (m : List (ℤ × Bytes))
    → IsOpen sm ss n
    → AllOpen sm ss m
    → AllOpen sm ss (insert_index k n m)
unfolding insert_index
insert_index-AllOpen sm ss k n [] o h = (o, tt)
insert_index-AllOpen sm ss k n ((k', w) ∷ d) o (h, hs) = elim (Bool-cases (eqb_ℤ k' k)) [
  | inl e ↦ rw e (o, hs)
  | inr e ↦ rw e (h, insert_index-AllOpen sm ss k n d o hs)
]

map_rels-AllOpen :
    (sm : Dict Bytes) (ss : Dict SheetPart) (v : SheetEntry) (rs : List Relationship)
    (m : List (ℤ × Bytes))
    → IsOpen sm ss v.name
    → AllOpen sm ss m
    → AllOpen sm ss (map_rels v rs m)
unfolding map_rels
map_rels-AllOpen sm ss v [] m o h = h
map_rels-AllOpen sm ss v (r ∷ rs) m o h =
    map_rels-AllOpen sm ss v rs _ o
      (by_rest (behind r.target (codes "worksheets/sheet")) (str_eq r.id v.id))
  where
    by_rest :
        (q : Option Bytes) (t : Bool)
        → AllOpen sm ss (elim q [
          | none ↦ m
          | some rest ↦
              if t then insert_index (atoi_value (trim_suffix rest (codes ".xml"))) v.name m else m
        ])
    by_rest none t = h
    by_rest (some rest) true = insert_index-AllOpen sm ss _ v.name m o h
    by_rest (some rest) false = h

-- Every sheet of the list is read.
abbrev pub EntriesOpen : Dict Bytes → Dict SheetPart → List SheetEntry → Type 0
EntriesOpen sm ss [] = Unit
EntriesOpen sm ss (v ∷ vs) = IsOpen sm ss v.name × EntriesOpen sm ss vs

map_entries-AllOpen :
    (sm : Dict Bytes) (ss : Dict SheetPart) (vs : List SheetEntry) (rs : List Relationship)
    (m : List (ℤ × Bytes))
    → EntriesOpen sm ss vs
    → AllOpen sm ss m
    → AllOpen sm ss (map_entries vs rs m)
unfolding map_entries
map_entries-AllOpen sm ss [] rs m o h = h
map_entries-AllOpen sm ss (v ∷ vs) rs m (o, os) h =
    map_entries-AllOpen sm ss vs rs (map_rels v rs m) os (map_rels-AllOpen sm ss v rs m o h)

pub set_active_sheet-IsOpen :
    (p : Parser) (index : ℤ) (f : File)
    → EntriesOpen f.sheet_map f.sheets f.entries
    → (sheets : Dict SheetPart) × (tabs : List ℤ) × (set_active_sheet p index f
        ≡ ok (record f { sheets = sheets; active_tabs = tabs }))
      × ((n : Bytes) → IsOpen f.sheet_map f.sheets n → IsOpen f.sheet_map sheets n)
unfolding set_active_sheet get_sheet_map
set_active_sheet-IsOpen p index f os =
    let index' = if ltb_ℤ index (pos 1) then pos 1 else index in
    let tabs = tab_loop f.entries 0 index' f.active_tabs in
    let (sheets, done, keeps) =
      select_loop-IsOpen p index' (map_entries f.entries f.book_rels [])
        (record f { active_tabs = tabs })
        (map_entries-AllOpen f.sheet_map f.sheets f.entries f.book_rels [] os tt) in
    (sheets, tabs, done, keeps)

has_name-at :
    (n : Bytes) (vs : List SheetEntry) (i : ℕ) (v : SheetEntry)
    → has_name n vs ≡ false
    → get_elem? vs i ≡ some v
    → str_eq v.name n ≡ false
has_name-at n [] i v h e = cc
has_name-at n (x ∷ xs) zero v h e =
    subst (λ (y : SheetEntry). str_eq y.name n ≡ false) (some-injective _ _ e) (ground arith)
has_name-at n (x ∷ xs) (suc i) v h e = has_name-at n xs i v (ground arith) e

delete_loop-none :
    (p : Parser) (name : Bytes) (f : File) (rounds i : ℕ)
    → has_name (trim_sheet_name name) f.entries ≡ false
    → i + rounds ≡ length f.entries
    → delete_loop p name rounds i (slice_of f.entries) f ≡ ok (slice_of f.entries, f)
unfolding delete_loop delete_round
delete_loop-none p name f zero i h e = refl
delete_loop-none p name f (suc rounds) i h e =
    let (v, at) = get_elem?-lt f.entries i (omega arith) in
    let other = has_name-at (trim_sheet_name name) f.entries i v h at in
    rw (at, other) (delete_loop-none p name f rounds (suc i) h (omega arith))

take-length : {A : Type 0} (xs : List A) → take (length xs) xs ≡ xs
take-length [] = refl
take-length (x ∷ xs) = ap (λ t. x ∷ t) (take-length xs)

-- DeleteSheet of a name that no sheet has selects a sheet.
pub delete_sheet-none :
    (p : Parser) (name : Bytes) (f : File)
    → has_name (trim_sheet_name name) f.entries ≡ false
    → delete_sheet p name f ≡ set_active_sheet p (pos (length (get_sheet_map f))) f
unfolding delete_sheet
delete_sheet-none p name f h =
    ap
      (λ r. r >>= λ (q : Slice SheetEntry × File).
        let f' = record q.1 { entries = elements q.0 } in
        set_active_sheet p (pos (length (get_sheet_map f'))) f')
      (delete_loop-none p name f (length f.entries) 0 h (omega arith))
    ∙ ap
        (λ es.
          let f' = record f { entries = es } in
          set_active_sheet p (pos (length (get_sheet_map f'))) f')
        (take-length f.entries)
