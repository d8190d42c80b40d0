-- ===== src/Workbook/Active.antt =====
-- SetActiveSheet and GetActiveSheetIndex (sheet.go).
use excelize.Common.{
  ℕ, suc, Bool, true, false, ◌||◌, List, [], ◌∷◌, if◌then◌else◌, Bytes, Result, ◌>>=◌, ok, err,
  fault,
}
use excelize.Common.Int.{ℤ, ltb_ℤ, eqb_ℤ, pos}
use excelize.Workbook.Data.{SheetView, zero_view, SheetEntry, Parser, File}
use excelize.Workbook.Lookup.{get_sheet_map}
use excelize.Workbook.Reader.{work_sheet_reader, store_part}

abbrev pub set_first_tab : ℤ → List ℤ → List ℤ
set_first_tab tab [] = tab ∷ []
set_first_tab tab (t ∷ ts) = tab ∷ ts

-- The last entry with the id counts.
unfoldable pub tab_loop : List SheetEntry → ℕ → ℤ → List ℤ → List ℤ
tab_loop [] tab index tabs = tabs
tab_loop (v ∷ vs) tab index tabs =
    tab_loop vs (suc tab) index
      (if eqb_ℤ v.sheet_id index then set_first_tab (pos tab) tabs else tabs)

abbrev pub unselect_first : List SheetView → List SheetView
unselect_first [] = []
unselect_first (v ∷ vs) = record v { tab_selected = false } ∷ vs

abbrev pub select_first : List SheetView → List SheetView
select_first [] = record zero_view { tab_selected = true } ∷ []
select_first (v ∷ vs) = record v { tab_selected = true } ∷ vs

abbrev pub marked : Bool → List SheetView → List SheetView
marked here vs = if here then select_first (unselect_first vs) else unselect_first vs

-- The error of workSheetReader is dropped: without a worksheet the next line panics.
unfoldable pub or_panic {ℓ} : {A : Type ℓ} → Result A → Result A
or_panic (ok a) = ok a
or_panic (err e) = fault
or_panic fault = fault

unfoldable pub select_loop : Parser → ℤ → List (ℤ × Bytes) → File → Result File
unfolding work_sheet_reader or_panic store_part
select_loop p index [] f = ok f
select_loop p index ((idx, name) ∷ m) f = or_panic (work_sheet_reader p name f) >>= λ o.
    select_loop p index m
      (store_part o.path (record o.part { views = marked (eqb_ℤ index idx) o.part.views }) o.file)

unfoldable pub set_active_sheet : Parser → ℤ → File → Result File
unfolding tab_loop select_loop get_sheet_map
set_active_sheet p index f =
    let index' = if ltb_ℤ index (pos 1) then pos 1 else index in
    let f' = record f { active_tabs = tab_loop f.entries 0 index' f.active_tabs } in
    select_loop p index' (get_sheet_map f') f'

unfoldable pub any_selected : List SheetView → Bool
any_selected [] = false
any_selected (v ∷ vs) = v.tab_selected || any_selected vs

unfoldable pub active_loop : Parser → List (ℤ × Bytes) → File → Result (File × ℤ)
unfolding work_sheet_reader or_panic any_selected
active_loop p [] f = ok (f, pos 0)
active_loop p ((idx, name) ∷ m) f = or_panic (work_sheet_reader p name f) >>= λ o.
    elim (any_selected o.part.views) [ true ↦ ok (o.file, idx) | false ↦ active_loop p m o.file ]

unfoldable pub get_active_sheet_index : Parser → File → Result (File × ℤ)
unfolding active_loop get_sheet_map
get_active_sheet_index p f = active_loop p (get_sheet_map f) f
