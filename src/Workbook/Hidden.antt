-- ===== src/Workbook/Hidden.antt =====
-- What SetSheetVisible comes to where it hides a sheet.
-- No relationship of a listed sheet leads to a file with the number 0.
use excelize.Common.{
  ◌≡◌, ap, ◌∙◌, false, none, List, [], ◌∷◌, Bytes, ◌>>=◌, sheet_not_exist, ok, err,
}
use excelize.Common.Dict.{lookup}
use excelize.Common.Int.{ℤ, pos}
use excelize.Workbook.Data.{SheetEntry, Parser, File}
use excelize.Workbook.Lookup.{lookup_index, get_sheet_map}
use excelize.Workbook.Names.{trim_sheet_name}
use excelize.Workbook.Open.{reader-missing}
use excelize.Workbook.Reader.{work_sheet_reader}
use excelize.Workbook.Visible.{count_shown, hide_loop, set_sheet_visible}

abbrev pub NoneAtZero : List (ℤ × Bytes) → Type 0
NoneAtZero m = lookup_index (pos 0) m ≡ []

-- Hiding a sheet is refused, whichever sheet it is, in every workbook that lists a sheet, numbers
-- the files of its sheets from 1 and has no sheet with an empty name: the loop asks for the
-- worksheet with the index 0 first.
pub set_sheet_visible-hide :
    (p : Parser) (name : Bytes) (f : File) (v : SheetEntry) (vs : List SheetEntry)
    → f.entries ≡ v ∷ vs
    → NoneAtZero (get_sheet_map f)
    → lookup [] f.sheet_map ≡ none
    → set_sheet_visible p name false f ≡ err (sheet_not_exist [])
unfolding set_sheet_visible hide_loop
set_sheet_visible-hide p name f v vs e z none_there =
    let read : work_sheet_reader p (lookup_index (pos 0) (get_sheet_map f)) f
        ≡ err (sheet_not_exist []) =
      rw z (reader-missing p [] f (unfold trim_sheet_name in none_there)) in
    ap
      (λ es. hide_loop p (trim_sheet_name name) (count_shown f.entries) 0 es f >>= λ r.
        ok (record r.1 { entries = r.0 }))
      e
    ∙ rw read
