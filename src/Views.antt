-- ===== src/Views.antt =====
-- The options of a sheet view (sheetview.go).
pub mod Laws
use excelize.Common.{
  ℕ, Bool, ◌&&◌, none, some, List, [], ◌∷◌, leb, if◌then◌else◌, length, get_elem?, set, Bytes,
  Result, ◌>>=◌, view_index_out_of_range, ok, err, fault,
}
use excelize.Common.Int.{ℤ, pos_part, ◌+ℤ◌, ◌-ℤ◌, ltb_ℤ, leb_ℤ, pos}
use excelize.Options.{default_true}
use excelize.Workbook.Data.{SheetView, Parser, File}
use excelize.Workbook.Reader.{Opened, work_sheet_reader, store_part}

-- The implementations of SheetViewOption.
pub data SheetViewOption : Type 0 where
  top_left_cell_option : Bytes → SheetViewOption
  default_grid_color_option : Bool → SheetViewOption
  right_to_left_option : Bool → SheetViewOption
  show_formulas_option : Bool → SheetViewOption
  show_grid_lines_option : Bool → SheetViewOption
  show_row_col_headers_option : Bool → SheetViewOption
  zoom_scale_option : ℕ → SheetViewOption

-- `float64(o) >= 10 && float64(o) <= 400` on the pattern of 64 bits: patterns of positive floats are
-- ordered as the floats are, and those of negative ones and of NaN are larger.
unfoldable pub in_zoom_range : ℕ → Bool
in_zoom_range z = leb 0x4024000000000000 z && leb z 0x4079000000000000

unfoldable pub set_sheet_view_option : SheetViewOption → SheetView → SheetView
unfolding in_zoom_range
set_sheet_view_option (top_left_cell_option o) view = record view { top_left_cell = o }
set_sheet_view_option (default_grid_color_option o) view = record view {
  default_grid_color = some o;
}
set_sheet_view_option (right_to_left_option o) view = record view { right_to_left = o }
set_sheet_view_option (show_formulas_option o) view = record view { show_formulas = o }
set_sheet_view_option (show_grid_lines_option o) view = record view { show_grid_lines = some o }
set_sheet_view_option (show_row_col_headers_option o) view = record view {
  show_row_col_headers = some o;
}
set_sheet_view_option (zoom_scale_option o) view = record view {
  zoom_scale = if in_zoom_range o then o else view.zoom_scale;
}

-- The option of the same kind with what the view has.
unfoldable pub get_sheet_view_option : SheetViewOption → SheetView → SheetViewOption
unfolding default_true
get_sheet_view_option (top_left_cell_option o) view = top_left_cell_option view.top_left_cell
get_sheet_view_option (default_grid_color_option o) view =
    default_grid_color_option (default_true view.default_grid_color)
get_sheet_view_option (right_to_left_option o) view = right_to_left_option view.right_to_left
get_sheet_view_option (show_formulas_option o) view = show_formulas_option view.show_formulas
get_sheet_view_option (show_grid_lines_option o) view =
    show_grid_lines_option (default_true view.show_grid_lines)
get_sheet_view_option (show_row_col_headers_option o) view =
    show_row_col_headers_option (default_true view.show_row_col_headers)
get_sheet_view_option (zoom_scale_option o) view = zoom_scale_option view.zoom_scale

unfoldable pub view_options_loop : List SheetViewOption → SheetView → SheetView
unfolding set_sheet_view_option
view_options_loop [] view = view
view_options_loop (o ∷ os) view = view_options_loop os (set_sheet_view_option o view)

-- The index of a view; a negative one counts from the end.
unfoldable pub view_index : ℤ → ℕ → Result ℕ
view_index i count =
    if ltb_ℤ i (pos 0)
    then (if ltb_ℤ i (pos 0 -ℤ pos count)
        then err (view_index_out_of_range i)
        else ok (pos_part (pos count +ℤ i)))
    else if leb_ℤ (pos count) i
    then err (view_index_out_of_range i)
    else ok (pos_part i)

-- getSheetView: the worksheet that is read, with the index of the view and the view.
unfoldable pub get_sheet_view : Parser → Bytes → ℤ → File → Result (Opened × ℕ × SheetView)
unfolding work_sheet_reader view_index
get_sheet_view p sheet_name index f = do
  o ← work_sheet_reader p sheet_name f
  i ← view_index index (length o.part.views)
  elim (get_elem? o.part.views i) [ none ↦ fault | some view ↦ ok (o, i, view) ]

unfoldable pub set_sheet_view_options :
    Parser → Bytes → ℤ → List SheetViewOption → File → Result File
unfolding get_sheet_view view_options_loop store_part
set_sheet_view_options p name index opts f = do
  (o, i, view) ← get_sheet_view p name index f
  ok (
      store_part o.path (record o.part { views = set o.part.views i (view_options_loop opts view) })
        o.file)

unfoldable pub get_options_loop : List SheetViewOption → SheetView → List SheetViewOption
unfolding get_sheet_view_option
get_options_loop [] view = []
get_options_loop (o ∷ os) view = get_sheet_view_option o view ∷ get_options_loop os view

unfoldable pub get_sheet_view_options :
    Parser → Bytes → ℤ → List SheetViewOption → File → Result (File × List SheetViewOption)
unfolding get_sheet_view get_options_loop
get_sheet_view_options p name index opts f = do
  (o, i, view) ← get_sheet_view p name index f
  ok (o.file, get_options_loop opts view)
