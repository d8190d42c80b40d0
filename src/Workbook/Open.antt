-- ===== src/Workbook/Open.antt =====
-- workSheetReader on its three paths, and SetActiveSheet on a workbook whose sheets are all read.
use mathlib.Core.Path.{subst}
use excelize.Adjust.Check.{check_sheet, check_row}
use excelize.Common.{
  ◌≡◌, refl, sym, ap, ◌∙◌, Bool, true, false, Option, none, some, List, [], ◌∷◌, arith,
  if◌then◌else◌, Bytes, str_eq, str_eq_refl, Result, ◌>>=◌, sheet_not_exist, ok, err, fault,
}
use excelize.Common.Dict.{Dict, lookup, insert, lookup-insert}
use excelize.Common.Int.{ℤ, eqb_ℤ}
use excelize.Sheet.Data.{Worksheet}
use excelize.Workbook.Active.{marked, or_panic, select_loop}
use excelize.Workbook.Data.{SheetPart, Parser, File}
use excelize.Workbook.Names.{trim_sheet_name}
use excelize.Workbook.Reader.{
  read_xml, Opened, checked_part, load_part, work_sheet_reader, store_part,
}

pub reader-missing :
    (p : Parser) (sheet : Bytes) (f : File)
    → lookup (trim_sheet_name sheet) f.sheet_map ≡ none
    → work_sheet_reader p sheet f ≡ err (sheet_not_exist sheet)
unfolding work_sheet_reader
reader-missing p sheet f e =
    ap
      (λ (o : Option Bytes). elim o [
        | none ↦ err (sheet_not_exist sheet)
        | some name ↦ elim (lookup name f.sheets) [
          | some x ↦ ok (record { file = f; path = name; part = x })
          | none ↦ load_part p name f
        ]
      ])
      e

pub reader-path :
    (p : Parser) (sheet path : Bytes) (f : File)
    → lookup (trim_sheet_name sheet) f.sheet_map ≡ some path
    → work_sheet_reader p sheet f ≡ (elim (lookup path f.sheets) [
      | some x ↦ ok (record { file = f; path = path; part = x })
      | none ↦ load_part p path f
    ])
unfolding work_sheet_reader
reader-path p sheet path f e =
    ap
      (λ (o : Option Bytes). elim o [
        | none ↦ err (sheet_not_exist sheet)
        | some name ↦ elim (lookup name f.sheets) [
          | some x ↦ ok (record { file = f; path = name; part = x })
          | none ↦ load_part p name f
        ]
      ])
      e

pub reader-open :
    (p : Parser) (sheet path : Bytes) (x : SheetPart) (f : File)
    → lookup (trim_sheet_name sheet) f.sheet_map ≡ some path
    → lookup path f.sheets ≡ some x
    → work_sheet_reader p sheet f ≡ ok (record { file = f; path = path; part = x })
reader-open p sheet path x f e e' =
    reader-path p sheet path f e
    ∙ ap
        (λ (o : Option SheetPart). elim o [
          | some y ↦ ok (record { file = f; path = path; part = y })
          | none ↦ load_part p path f
        ])
        e'

checked_part-map :
    (name : Bytes) (x : SheetPart) (f : File) (r : File × SheetPart)
    → checked_part name x f ≡ ok r
    → r.0.sheet_map ≡ f.sheet_map
unfolding checked_part
checked_part-map name x f r h =
    by_flag (elim (lookup name f.checked) [ none ↦ false | some b ↦ b ])
      (check_row (check_sheet x.grid)) h
  where
    by_flag :
        (t : Bool) (c : Result Worksheet)
        → (if t
            then ok (f, x)
            else (c >>= λ grid.
                ok (record f { checked = insert name true f.checked }, record x { grid = grid })))
          ≡ ok r
        → r.0.sheet_map ≡ f.sheet_map
    by_flag true c h = ground arith
    by_flag false (ok grid) h = ground arith
    by_flag false (err e) h = cc
    by_flag false fault h = cc

pub ok-injective : {A : Type 0} {a b : A} → ok a ≡ ok b → a ≡ b
ok-injective h = cc

unfoldable pub IsLoaded : Bytes → File → Opened → Type 0
IsLoaded name f o =
    (o.path ≡ name) × (o.file.sheet_map ≡ f.sheet_map) × (lookup name o.file.sheets ≡ some o.part)

pub load_part-IsLoaded :
    (p : Parser) (name : Bytes) (f : File) (o : Opened)
    → load_part p name f ≡ ok o
    → IsLoaded name f o
unfolding load_part IsLoaded checked_part
load_part-IsLoaded p name f o h =
    by_result (checked_part name (p.worksheet (read_xml name f)) f) refl h
  where
    by_result :
        (c : Result (File × SheetPart))
        → checked_part name (p.worksheet (read_xml name f)) f ≡ c
        → (c >>= λ r. ok (record {
          file = record r.0 { sheets = insert name r.1 r.0.sheets };
          path = name;
          part = r.1;
        }))
          ≡ ok o
        → IsLoaded name f o
    by_result (ok r) e h = subst (IsLoaded name f) (ok-injective h) (
      refl,
      checked_part-map name (p.worksheet (read_xml name f)) f r e,
      lookup-insert name name r.1 r.0.sheets
          ∙ ap (λ t. if t then some r.1 else lookup name r.0.sheets) (str_eq_refl name),
    )
    by_result (err x) e h = cc
    by_result fault e h = cc

-- A worksheet is read and checked once: a second call finds what the first one has stored, and
-- changes nothing.
pub reader_twice :
    (p : Parser) (sheet : Bytes) (f : File) (o : Opened)
    → work_sheet_reader p sheet f ≡ ok o
    → work_sheet_reader p sheet o.file ≡ ok o
unfolding IsLoaded
reader_twice p sheet f o h = by_path (lookup (trim_sheet_name sheet) f.sheet_map) refl
  where
    by_part :
        (path : Bytes) (x : Option SheetPart)
        → lookup (trim_sheet_name sheet) f.sheet_map ≡ some path
        → lookup path f.sheets ≡ x
        → (elim x [
          | some x ↦ ok (record { file = f; path = path; part = x })
          | none ↦ load_part p path f
        ])
          ≡ ok o
        → work_sheet_reader p sheet o.file ≡ ok o
    by_part path (some x) e e' h =
        subst (λ q. work_sheet_reader p sheet q.file ≡ ok q) (ok-injective h)
          (reader-open p sheet path x f e e')
    by_part path none e e' h =
        let (same, kept, there) = load_part-IsLoaded p path f o h in
        reader-open p sheet path o.part o.file (ap (lookup (trim_sheet_name sheet)) kept ∙ e) there
        ∙ ap (λ q. ok (record o { path = q })) (sym same)

    by_path :
        (q : Option Bytes)
        → lookup (trim_sheet_name sheet) f.sheet_map ≡ q
        → work_sheet_reader p sheet o.file ≡ ok o
    by_path none e = cc (sym (reader-missing p sheet f e) ∙ h)
    by_path (some path) e =
        by_part path (lookup path f.sheets) e refl (sym (reader-path p sheet path f e) ∙ h)

-- A name whose worksheet is read already.
abbrev pub IsOpen : Dict Bytes → Dict SheetPart → Bytes → Type 0
IsOpen sheet_map sheets n =
    (path : Bytes) × (x : SheetPart) × (lookup (trim_sheet_name n) sheet_map ≡ some path)
    × (lookup path sheets ≡ some x)

pub IsOpen-insert :
    (sheet_map : Dict Bytes) (sheets : Dict SheetPart) (k n : Bytes) (y : SheetPart)
    → IsOpen sheet_map sheets n
    → IsOpen sheet_map (insert k y sheets) n
IsOpen-insert sheet_map sheets k n y (path, x, e, e') =
    by_key (str_eq k path) (lookup-insert path k y sheets)
  where
    by_key :
        (t : Bool)
        → lookup path (insert k y sheets) ≡ (if t then some y else lookup path sheets)
        → IsOpen sheet_map (insert k y sheets) n
    by_key true h = (path, y, e, h)
    by_key false h = (path, x, e, h ∙ e')

abbrev pub AllOpen : Dict Bytes → Dict SheetPart → List (ℤ × Bytes) → Type 0
AllOpen sheet_map sheets [] = Unit
AllOpen sheet_map sheets ((k, n) ∷ m) = IsOpen sheet_map sheets n × AllOpen sheet_map sheets m

AllOpen-insert :
    (sheet_map : Dict Bytes) (sheets : Dict SheetPart) (k : Bytes) (y : SheetPart)
    (m : List (ℤ × Bytes))
    → AllOpen sheet_map sheets m
    → AllOpen sheet_map (insert k y sheets) m
AllOpen-insert sheet_map sheets k y [] h = tt
AllOpen-insert sheet_map sheets k y ((i, n) ∷ m) (h, hs) =
    (IsOpen-insert sheet_map sheets k n y h, AllOpen-insert sheet_map sheets k y m hs)

-- Selecting among sheets that are read changes their views alone.
pub select_loop-IsOpen :
    (p : Parser) (index : ℤ) (m : List (ℤ × Bytes)) (f : File)
    → AllOpen f.sheet_map f.sheets m
    → (sheets : Dict SheetPart) × (select_loop p index m f ≡ ok (record f { sheets = sheets }))
      × ((n : Bytes) → IsOpen f.sheet_map f.sheets n → IsOpen f.sheet_map sheets n)
unfolding select_loop
select_loop-IsOpen p index [] f h = (f.sheets, refl, λ n o. o)
select_loop-IsOpen p index ((idx, name) ∷ m) f ((path, x, e, e'), hs) =
    let y = record x { views = marked (eqb_ℤ index idx) x.views } in
    let f' = record f { sheets = insert path y f.sheets } in
    let (sheets, done, keeps) =
      select_loop-IsOpen p index m f' (AllOpen-insert f.sheet_map f.sheets path y m hs) in
    (
      sheets,
      ap
            (λ r. or_panic r >>= λ o. select_loop p index m (
              store_part o.path (record o.part { views = marked (eqb_ℤ index idx) o.part.views })
                o.file))
            (reader-open p name path x f e e')
          ∙ done,
      λ n o. keeps n (IsOpen-insert f.sheet_map f.sheets path n y o),
    )
