-- ===== src/Workbook/Invariant.antt =====
-- The invariant of a workbook, and NewSheet with a fresh name.
-- An entry has a relationship to the file with its number, and its name leads to that file, which is
-- read already.
use mathlib.Core.Option.{some-injective}
use excelize.Adjust.Links.{Relationship}
use excelize.Common.{
  ℕ, ◌≤◌, ◌≡◌, refl, sym, ap, ◌∙◌, Bool, true, false, some, List, [], ◌∷◌, ◌++◌, arith,
  if◌then◌else◌, Bytes, str_eq,
}
use excelize.Common.Dict.{Dict, lookup, insert, str_eq-false_sym, lookup-insert}
use excelize.Common.Int.{max_int, pos}
use excelize.Workbook.Data.{SheetPart, SheetEntry, File}
use excelize.Workbook.Fresh.{EntriesOpen}
use excelize.Workbook.Ids.{HasNumbers, DistinctIds}
use excelize.Workbook.Lookup.{find_rel, index_loop}
use excelize.Workbook.Names.{trim_sheet_name, sheet_path, sheet_target}
use excelize.Workbook.Open.{IsOpen}
use excelize.Workbook.RelIds.{find_rel-append}
use excelize.Workbook.Rename.{has_name}

pub record IsEntry (sm : Dict Bytes) (ss : Dict SheetPart) (rels : List Relationship)
    (v : SheetEntry) : Type 0 where
  pub number : ℕ
  pub rel : Relationship
  pub part : SheetPart
  pub numbered : v.sheet_id ≡ pos number
  pub bounded : number ≤ max_int
  pub related : find_rel v.id rels ≡ some rel
  pub target : rel.target ≡ sheet_target (pos number)
  pub own_name : trim_sheet_name v.name ≡ v.name
  pub mapped : lookup v.name sm ≡ some (sheet_path (pos number))
  pub read : lookup (sheet_path (pos number)) ss ≡ some part

abbrev pub AllEntries : Dict Bytes → Dict SheetPart → List Relationship → List SheetEntry → Type 0
AllEntries sm ss rels [] = Unit
AllEntries sm ss rels (v ∷ vs) = IsEntry sm ss rels v × AllEntries sm ss rels vs

abbrev pub DistinctNames : List SheetEntry → Type 0
DistinctNames [] = Unit
DistinctNames (v ∷ vs) = (has_name v.name vs ≡ false) × DistinctNames vs

abbrev pub IsBook : File → Type 0
IsBook f =
    AllEntries f.sheet_map f.sheets f.book_rels f.entries
    × DistinctNames f.entries
    × DistinctIds f.entries

pub HasNumbers-AllEntries :
    (sm : Dict Bytes) (ss : Dict SheetPart) (rels : List Relationship) (vs : List SheetEntry)
    → AllEntries sm ss rels vs
    → HasNumbers vs
HasNumbers-AllEntries sm ss rels [] h = tt
HasNumbers-AllEntries sm ss rels (v ∷ vs) (e, es) =
    ((e.number, e.numbered), HasNumbers-AllEntries sm ss rels vs es)

pub EntriesOpen-AllEntries :
    (sm : Dict Bytes) (ss : Dict SheetPart) (rels : List Relationship) (vs : List SheetEntry)
    → AllEntries sm ss rels vs
    → EntriesOpen sm ss vs
EntriesOpen-AllEntries sm ss rels [] h = tt
EntriesOpen-AllEntries sm ss rels (v ∷ vs) (e, es) = (
  (sheet_path (pos e.number), e.part, ap (λ n. lookup n sm) e.own_name ∙ e.mapped, e.read),
  EntriesOpen-AllEntries sm ss rels vs es,
)

pub index_loop-none :
    (vs : List SheetEntry) (rels : List Relationship) (name : Bytes)
    → has_name name vs ≡ false
    → index_loop vs rels name ≡ pos 0
unfolding index_loop
index_loop-none [] rels name h = refl
index_loop-none (v ∷ vs) rels name h =
    let other : str_eq v.name name ≡ false = ground arith in
    rw other (index_loop-none vs rels name (ground arith))

-- Behind NewSheet.
pub index_loop-last :
    (vs : List SheetEntry) (e : SheetEntry) (rels : List Relationship) (name : Bytes)
    → has_name name vs ≡ false
    → index_loop (vs ++ e ∷ []) rels name ≡ index_loop (e ∷ []) rels name
unfolding index_loop
index_loop-last [] e rels name h = refl
index_loop-last (v ∷ vs) e rels name h =
    let other : str_eq v.name name ≡ false = ground arith in
    rw other (index_loop-last vs e rels name (ground arith))

IsEntry-active :
    (sm : Dict Bytes) (ss ss' : Dict SheetPart) (rels : List Relationship) (v : SheetEntry)
    → ((n : Bytes) → IsOpen sm ss n → IsOpen sm ss' n)
    → IsEntry sm ss rels v
    → IsEntry sm ss' rels v
IsEntry-active sm ss ss' rels v keeps e =
    let at = sheet_path (pos e.number) in
    let (path, x, mapped, read) =
      keeps v.name (at, e.part, ap (λ n. lookup n sm) e.own_name ∙ e.mapped, e.read) in
    let same : path ≡ at =
      some-injective _ _ (sym mapped ∙ ap (λ n. lookup n sm) e.own_name ∙ e.mapped) in
    record {
      number = e.number;
      rel = e.rel;
      part = x;
      numbered = e.numbered;
      bounded = e.bounded;
      related = e.related;
      target = e.target;
      own_name = e.own_name;
      mapped = e.mapped;
      read = ap (λ q. lookup q ss') (sym same) ∙ read;
    }

pub AllEntries-active :
    (sm : Dict Bytes) (ss ss' : Dict SheetPart) (rels : List Relationship) (vs : List SheetEntry)
    → ((n : Bytes) → IsOpen sm ss n → IsOpen sm ss' n)
    → AllEntries sm ss rels vs
    → AllEntries sm ss' rels vs
AllEntries-active sm ss ss' rels [] keeps h = tt
AllEntries-active sm ss ss' rels (v ∷ vs) keeps (h, hs) =
    (IsEntry-active sm ss ss' rels v keeps h, AllEntries-active sm ss ss' rels vs keeps hs)

IsEntry-append :
    (sm : Dict Bytes) (ss : Dict SheetPart) (rels : List Relationship) (v : SheetEntry)
    (name path : Bytes) (x : SheetPart) (new : Relationship)
    → str_eq name v.name ≡ false
    → IsEntry sm ss rels v
    → IsEntry (insert name path sm) (insert path x ss) (rels ++ new ∷ []) v
IsEntry-append sm ss rels v name path x new other e =
    let at = sheet_path (pos e.number) in
    let found : (part : SheetPart) × (lookup at (insert path x ss) ≡ some part) =
      by_path at e.part e.read (str_eq path at) (lookup-insert at path x ss) in
    record {
      number = e.number;
      rel = e.rel;
      part = found.0;
      numbered = e.numbered;
      bounded = e.bounded;
      target = e.target;
      own_name = e.own_name;
      related = find_rel-append v.id rels new e.rel e.related;
      mapped =
          lookup-insert v.name name path sm
          ∙ ap (λ t. if t then some path else lookup v.name sm) other
          ∙ e.mapped;
      read = found.1;
    }
  where
    by_path :
        (at : Bytes) (part : SheetPart)
        → lookup at ss ≡ some part
        → (t : Bool) → lookup at (insert path x ss) ≡ (if t then some x else lookup at ss)
        → (part : SheetPart) × (lookup at (insert path x ss) ≡ some part)
    by_path at part read true h = (x, h)
    by_path at part read false h = (part, h ∙ read)

pub AllEntries-append :
    (sm : Dict Bytes) (ss : Dict SheetPart) (rels : List Relationship) (vs : List SheetEntry)
    (name path : Bytes) (x : SheetPart) (new : Relationship) (e : SheetEntry)
    → has_name name vs ≡ false
    → AllEntries sm ss rels vs
    → IsEntry (insert name path sm) (insert path x ss) (rels ++ new ∷ []) e
    → AllEntries (insert name path sm) (insert path x ss) (rels ++ new ∷ []) (vs ++ e ∷ [])
AllEntries-append sm ss rels [] name path x new e h hs last = (last, tt)
AllEntries-append sm ss rels (v ∷ vs) name path x new e h (h', hs) last =
    let other : str_eq v.name name ≡ false = ground arith in
    (
      IsEntry-append sm ss rels v name path x new (str_eq-false_sym v.name _ other) h',
      AllEntries-append sm ss rels vs name path x new e (ground arith) hs last,
    )

has_name-append :
    (n : Bytes) (vs : List SheetEntry) (e : SheetEntry)
    → has_name n vs ≡ false
    → str_eq e.name n ≡ false
    → has_name n (vs ++ e ∷ []) ≡ false
has_name-append n [] e h h' = ground arith
has_name-append n (v ∷ vs) e h h' =
    let rest = has_name-append n vs e (ground arith) h' in
    let other : str_eq v.name n ≡ false = ground arith in rw (other, rest) refl

pub DistinctNames-append :
    (vs : List SheetEntry) (e : SheetEntry)
    → has_name e.name vs ≡ false
    → DistinctNames vs
    → DistinctNames (vs ++ e ∷ [])
DistinctNames-append [] e h hs = (refl, tt)
DistinctNames-append (v ∷ vs) e h (h', hs) =
    let other : str_eq v.name e.name ≡ false = ground arith in
    (
      has_name-append v.name vs e h' (str_eq-false_sym v.name _ other),
      DistinctNames-append vs e (ground arith) hs,
    )
