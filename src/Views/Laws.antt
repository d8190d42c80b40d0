-- ===== src/Views/Laws.antt =====
-- The options of a view are independent of each other, and the last setting of one counts.
use excelize.Common.{
  ℕ, ◌-◌, ◌≤◌, ◌<◌, ◌≡◌, refl, ap, ◌∙◌, Bool, true, false, ◌&&◌, some, List, [], ◌∷◌, map, arith,
  ltb, ◌==◌, if◌then◌else◌, length, get_elem?, set, length-set, get_elem?-set_self, get_elem?-lt,
  Bytes, ◌>>=◌, view_index_out_of_range, ok, err,
}
use excelize.Common.Int.{ℤ, max_int, ◌+ℤ◌, ◌-ℤ◌, ◌≤ℤ◌, pos, negsuc}
use excelize.Sheet.View.{view}
use excelize.Views.{
  SheetViewOption, in_zoom_range, set_sheet_view_option, get_sheet_view_option, view_options_loop,
  view_index, get_sheet_view, set_sheet_view_options, get_options_loop, get_sheet_view_options,
  top_left_cell_option, default_grid_color_option, right_to_left_option, show_formulas_option,
  show_grid_lines_option, show_row_col_headers_option, zoom_scale_option,
}
use excelize.Workbook.Data.{SheetView, Parser, File}
use excelize.Workbook.Reader.{Opened, work_sheet_reader, store_part}
use excelize.Workbook.Stored.{reader-store_part}

abbrev pub kind : SheetViewOption → ℕ
kind (top_left_cell_option o) = 0
kind (default_grid_color_option o) = 1
kind (right_to_left_option o) = 2
kind (show_formulas_option o) = 3
kind (show_grid_lines_option o) = 4
kind (show_row_col_headers_option o) = 5
kind (zoom_scale_option o) = 6

-- A zoom out of range is not taken.
abbrev pub taken : SheetViewOption → Bool
taken (zoom_scale_option o) = in_zoom_range o
taken o = true

-- The last option of the kind of k among those that are set and taken, or the one that was there.
abbrev pub last_taken : List SheetViewOption → SheetViewOption → SheetViewOption → SheetViewOption
last_taken [] k before = before
last_taken (o ∷ os) k before = last_taken os k (if (kind o == kind k) && taken o then o else before)

get-set_one :
    (o k : SheetViewOption) (view : SheetView)
    → get_sheet_view_option k (set_sheet_view_option o view)
      ≡ (if (kind o == kind k) && taken o then o else get_sheet_view_option k view)
unfolding get_sheet_view_option set_sheet_view_option
get-set_one (top_left_cell_option o) (top_left_cell_option x) view = refl
get-set_one (top_left_cell_option o) (default_grid_color_option x) view = refl
get-set_one (top_left_cell_option o) (right_to_left_option x) view = refl
get-set_one (top_left_cell_option o) (show_formulas_option x) view = refl
get-set_one (top_left_cell_option o) (show_grid_lines_option x) view = refl
get-set_one (top_left_cell_option o) (show_row_col_headers_option x) view = refl
get-set_one (top_left_cell_option o) (zoom_scale_option x) view = refl
get-set_one (default_grid_color_option o) (top_left_cell_option x) view = refl
get-set_one (default_grid_color_option o) (default_grid_color_option x) view = refl
get-set_one (default_grid_color_option o) (right_to_left_option x) view = refl
get-set_one (default_grid_color_option o) (show_formulas_option x) view = refl
get-set_one (default_grid_color_option o) (show_grid_lines_option x) view = refl
get-set_one (default_grid_color_option o) (show_row_col_headers_option x) view = refl
get-set_one (default_grid_color_option o) (zoom_scale_option x) view = refl
get-set_one (right_to_left_option o) (top_left_cell_option x) view = refl
get-set_one (right_to_left_option o) (default_grid_color_option x) view = refl
get-set_one (right_to_left_option o) (right_to_left_option x) view = refl
get-set_one (right_to_left_option o) (show_formulas_option x) view = refl
get-set_one (right_to_left_option o) (show_grid_lines_option x) view = refl
get-set_one (right_to_left_option o) (show_row_col_headers_option x) view = refl
get-set_one (right_to_left_option o) (zoom_scale_option x) view = refl
get-set_one (show_formulas_option o) (top_left_cell_option x) view = refl
get-set_one (show_formulas_option o) (default_grid_color_option x) view = refl
get-set_one (show_formulas_option o) (right_to_left_option x) view = refl
get-set_one (show_formulas_option o) (show_formulas_option x) view = refl
get-set_one (show_formulas_option o) (show_grid_lines_option x) view = refl
get-set_one (show_formulas_option o) (show_row_col_headers_option x) view = refl
get-set_one (show_formulas_option o) (zoom_scale_option x) view = refl
get-set_one (show_grid_lines_option o) (top_left_cell_option x) view = refl
get-set_one (show_grid_lines_option o) (default_grid_color_option x) view = refl
get-set_one (show_grid_lines_option o) (right_to_left_option x) view = refl
get-set_one (show_grid_lines_option o) (show_formulas_option x) view = refl
get-set_one (show_grid_lines_option o) (show_grid_lines_option x) view = refl
get-set_one (show_grid_lines_option o) (show_row_col_headers_option x) view = refl
get-set_one (show_grid_lines_option o) (zoom_scale_option x) view = refl
get-set_one (show_row_col_headers_option o) (top_left_cell_option x) view = refl
get-set_one (show_row_col_headers_option o) (default_grid_color_option x) view = refl
get-set_one (show_row_col_headers_option o) (right_to_left_option x) view = refl
get-set_one (show_row_col_headers_option o) (show_formulas_option x) view = refl
get-set_one (show_row_col_headers_option o) (show_grid_lines_option x) view = refl
get-set_one (show_row_col_headers_option o) (show_row_col_headers_option x) view = refl
get-set_one (show_row_col_headers_option o) (zoom_scale_option x) view = refl
get-set_one (zoom_scale_option o) (top_left_cell_option x) view = refl
get-set_one (zoom_scale_option o) (default_grid_color_option x) view = refl
get-set_one (zoom_scale_option o) (right_to_left_option x) view = refl
get-set_one (zoom_scale_option o) (show_formulas_option x) view = refl
get-set_one (zoom_scale_option o) (show_grid_lines_option x) view = refl
get-set_one (zoom_scale_option o) (show_row_col_headers_option x) view = refl
get-set_one (zoom_scale_option o) (zoom_scale_option x) view = by_range (in_zoom_range o)
  where
    by_range :
        (t : Bool)
        → zoom_scale_option (if t then o else view.zoom_scale)
          ≡ (if t then zoom_scale_option o else zoom_scale_option view.zoom_scale)
    by_range true = refl
    by_range false = refl

get-loop :
    (os : List SheetViewOption) (k : SheetViewOption) (view : SheetView)
    → get_sheet_view_option k (view_options_loop os view)
      ≡ last_taken os k (get_sheet_view_option k view)
unfolding view_options_loop
get-loop [] k view = refl
get-loop (o ∷ os) k view =
    get-loop os k (set_sheet_view_option o view) ∙ ap (last_taken os k) (get-set_one o k view)

-- An index counts the views from the one end or the other; one that is out of range is refused.
view_index-pos :
    (i count : ℕ)
    → view_index (pos i) count
      ≡ (if ltb i count then ok i else err (view_index_out_of_range (pos i)))
unfolding view_index
view_index-pos i count = ground arith

view_index-negsuc :
    (i count : ℕ)
    → i ≤ max_int
    → count ≤ max_int
    → view_index (negsuc i) count
      ≡ (if ltb i count then ok (count - 1 - i) else err (view_index_out_of_range (negsuc i)))
unfolding view_index ◌+ℤ◌ ◌-ℤ◌
view_index-negsuc i count h h' = ground arith

pub view_index-lt :
    (i : ℤ) (count n : ℕ)
    → negsuc max_int ≤ℤ i
    → count ≤ max_int
    → view_index i count ≡ ok n
    → n < count
view_index-lt (pos i) count n b h e = let e' = view_index-pos i count in ground (arith, e, e')
view_index-lt (negsuc i) count n b h e =
    let e' = view_index-negsuc i count (omega (arith, b)) h in ground (arith, e, e')

-- The options that a loop reads.
get_options_loop-map :
    (os ks : List SheetViewOption) (view : SheetView)
    → get_options_loop ks (view_options_loop os view)
      ≡ map (λ k. last_taken os k (get_sheet_view_option k view)) ks
unfolding get_options_loop
get_options_loop-map os [] view = refl
get_options_loop-map os (k ∷ ks) view =
    rw (get-loop os k view, get_options_loop-map os ks view) refl

get_sheet_view-at :
    (p : Parser) (name : Bytes) (i : ℤ) (f : File) (o : Opened) (n : ℕ) (view : SheetView)
    → work_sheet_reader p name f ≡ ok o
    → view_index i (length o.part.views) ≡ ok n
    → get_elem? o.part.views n ≡ some view
    → get_sheet_view p name i f ≡ ok (o, n, view)
unfolding get_sheet_view
get_sheet_view-at p name i f o n view h e at = rw (h, e, ◌>>=◌, at) refl

-- On a worksheet that can be read and has the view with the index, SetSheetViewOptions succeeds, and
-- GetSheetViewOptions then reads for each option the last one of its kind that was set, a zoom out of
-- range excepted, or what the view had.
pub get-set_sheet_view_options :
    (p : Parser) (name : Bytes) (i : ℤ) (os ks : List SheetViewOption) (f : File) (o : Opened)
    (n : ℕ)
    → work_sheet_reader p name f ≡ ok o
    → view_index i (length o.part.views) ≡ ok n
    → n < length o.part.views
    → (view : SheetView) × (f' : File) × (get_elem? o.part.views n ≡ some view)
      × (set_sheet_view_options p name i os f ≡ ok f')
      × (get_sheet_view_options p name i ks f'
          ≡ ok (f', map (λ k. last_taken os k (get_sheet_view_option k view)) ks))
unfolding set_sheet_view_options get_sheet_view_options
get-set_sheet_view_options p name i os ks f o n h e lt =
    let (view, at) = get_elem?-lt o.part.views n lt in
    let x = record o.part { views = set o.part.views n (view_options_loop os view) } in
    let again = reader-store_part p name x f o h in
    let count : length x.views ≡ length o.part.views =
      length-set o.part.views n (view_options_loop os view) in
    let self : get_elem? x.views n ≡ some (view_options_loop os view) =
      get_elem?-set_self o.part.views n (view_options_loop os view) lt in
    (
      view,
      store_part o.path x o.file,
      at,
      rw (get_sheet_view-at p name i f o n view h e at) refl,
      rw
          (
            get_sheet_view-at p name i (store_part o.path x o.file)
                (record { file = store_part o.path x o.file; path = o.path; part = x }) n
                (view_options_loop os view) again (ap (view_index i) count ∙ e) self,
            get_options_loop-map os ks view,
          )
          refl,
    )
