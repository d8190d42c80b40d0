-- ===== src/Workbook/Stored.antt =====
-- What is written through the pointer that workSheetReader returns is what it returns the next time.
use mathlib.Core.Path.{subst}
use excelize.Common.{
  ◌≡◌, refl, sym, ap, ◌∙◌, Option, none, some, if◌then◌else◌, Bytes, str_eq_refl, ok,
}
use excelize.Common.Dict.{lookup, insert, lookup-insert}
use excelize.Workbook.Data.{SheetPart, Parser, File}
use excelize.Workbook.Names.{trim_sheet_name}
use excelize.Workbook.Open.{
  reader-missing, reader-path, reader-open, ok-injective, IsLoaded, load_part-IsLoaded,
}
use excelize.Workbook.Reader.{Opened, load_part, work_sheet_reader, store_part}

pub opened-path :
    (p : Parser) (sheet : Bytes) (f : File) (o : Opened)
    → work_sheet_reader p sheet f ≡ ok o
    → lookup (trim_sheet_name sheet) o.file.sheet_map ≡ some o.path
unfolding IsLoaded
opened-path p sheet f o h = by_path (lookup (trim_sheet_name sheet) f.sheet_map) refl
  where
    by_part :
        (path : Bytes) (x : Option SheetPart)
        → lookup (trim_sheet_name sheet) f.sheet_map ≡ some path
        → (elim x [
          | some x ↦ ok (record { file = f; path = path; part = x })
          | none ↦ load_part p path f
        ])
          ≡ ok o
        → lookup (trim_sheet_name sheet) o.file.sheet_map ≡ some o.path
    by_part path (some x) e h =
        subst (λ q. lookup (trim_sheet_name sheet) q.file.sheet_map ≡ some q.path) (ok-injective h)
          e
    by_part path none e h =
        let (same, kept, there) = load_part-IsLoaded p path f o h in
        ap (lookup (trim_sheet_name sheet)) kept ∙ e ∙ ap some (sym same)

    by_path :
        (q : Option Bytes)
        → lookup (trim_sheet_name sheet) f.sheet_map ≡ q
        → lookup (trim_sheet_name sheet) o.file.sheet_map ≡ some o.path
    by_path none e = cc (sym (reader-missing p sheet f e) ∙ h)
    by_path (some path) e =
        by_part path (lookup path f.sheets) e (sym (reader-path p sheet path f e) ∙ h)

pub reader-store_part :
    (p : Parser) (sheet : Bytes) (x : SheetPart) (f : File) (o : Opened)
    → work_sheet_reader p sheet f ≡ ok o
    → work_sheet_reader p sheet (store_part o.path x o.file)
      ≡ ok (record { file = store_part o.path x o.file; path = o.path; part = x })
unfolding store_part
reader-store_part p sheet x f o h =
    reader-open p sheet o.path x (record o.file { sheets = insert o.path x o.file.sheets })
      (opened-path p sheet f o h)
      (lookup-insert o.path o.path x o.file.sheets
        ∙ ap (λ t. if t then some x else lookup o.path o.file.sheets) (str_eq_refl o.path))
