-- ===== src/Workbook/Visible.antt =====
-- SetSheetVisible and GetSheetVisible (sheet.go).
use excelize.Common.{
  ℕ, suc, ◌+◌, Bool, false, not, ◌&&◌, ◌||◌, List, [], ◌∷◌, ltb, if◌then◌else◌, Bytes, codes,
  str_eq, Result, ◌>>=◌, ok,
}
use excelize.Common.Int.{pos}
use excelize.Workbook.Data.{SheetView, SheetEntry, Parser, File}
use excelize.Workbook.Lookup.{lookup_index, get_sheet_map}
use excelize.Workbook.Names.{trim_sheet_name}
use excelize.Workbook.Reader.{work_sheet_reader}

unfoldable pub show_entries : Bytes → List SheetEntry → List SheetEntry
unfolding str_eq
show_entries name [] = []
show_entries name (v ∷ vs) =
    (if str_eq v.name name then record v { state = [] } else v) ∷ show_entries name vs

unfoldable pub count_shown : List SheetEntry → ℕ
unfolding str_eq
count_shown [] = 0
count_shown (v ∷ vs) = (if str_eq v.state (codes "hidden") then 0 else 1) + count_shown vs

abbrev pub first_selected : List SheetView → Bool
first_selected [] = false
first_selected (v ∷ vs) = v.tab_selected

-- The loop over the entries from the index k on: it reads the worksheet that the map of indices has
-- under the position of the entry.
unfoldable pub hide_loop :
    Parser → Bytes → ℕ → ℕ → List SheetEntry → File → Result (List SheetEntry × File)
unfolding work_sheet_reader get_sheet_map lookup_index str_eq
hide_loop p name count k [] f = ok ([], f)
hide_loop p name count k (v ∷ vs) f = do
  o ← work_sheet_reader p (lookup_index (pos k) (get_sheet_map f)) f
  r ← hide_loop p name count (suc k) vs o.file
  ok (
    (if str_eq v.name name && ltb 1 count && not (first_selected o.part.views)
          then record v { state = codes "hidden" }
          else v)
        ∷ r.0,
    r.1,
  )

unfoldable pub set_sheet_visible : Parser → Bytes → Bool → File → Result File
unfolding show_entries count_shown hide_loop trim_sheet_name
set_sheet_visible p name visible f =
    if visible
    then ok (record f { entries = show_entries (trim_sheet_name name) f.entries })
    else (hide_loop p (trim_sheet_name name) (count_shown f.entries) 0 f.entries f >>= λ r.
        ok (record r.1 { entries = r.0 }))

unfoldable pub visible_entries : Bytes → List SheetEntry → Bool → Bool
unfolding str_eq
visible_entries name [] visible = visible
visible_entries name (v ∷ vs) visible =
    visible_entries name vs
      (visible || (str_eq v.name name && (str_eq v.state [] || str_eq v.state (codes "visible"))))

unfoldable pub get_sheet_visible : Bytes → File → Bool
unfolding visible_entries trim_sheet_name
get_sheet_visible name f = visible_entries (trim_sheet_name name) f.entries false
