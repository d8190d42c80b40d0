-- ===== src/Tests/Merge.antt =====
-- Merged cells at concrete inputs.
use excelize.Common.{◌≡◌, refl, true, none, some, [], ◌∷◌, arith, ok}
use excelize.Common.Int.{pos}
use excelize.Merge.{check_cell_in_area, merge_cells_parser, merge_cell}
use excelize.Merge.Area.{Area, first_cell, last_cell, area_ref, covers, check_cell_in_area-covers}
use excelize.Merge.Overlap.{crossing_areas_both_stored}
use excelize.Merge.Refine.{anchor, merge_cells_parser-anchor, ordered, merge_cell-areas}
use excelize.Merged.{get_start_axis, get_end_axis, axes-area_ref}
use excelize.Ref.Cell.RoundTrip.{cell_name}
use excelize.Sheet.Data.{Worksheet}

abbrev band : Area
band = record { c1 = 2; r1 = 1; c2 = 2; r2 = 9 }

abbrev crossing : Area
crossing = record { c1 = 1; r1 = 4; c2 = 5; r2 = 4 }

abbrev with_band : Worksheet
with_band = record {
  cols = none;
  rows = [];
  auto_filter = none;
  merge_cells = some (record { count = pos 1; cells = area_ref band ∷ [] });
  hyperlinks = none;
}

check_cell_in_area-covers_example :
    check_cell_in_area (cell_name 2 5) (area_ref band) ≡ ok (covers band 2 5)
check_cell_in_area-covers_example =
    check_cell_in_area-covers band 2 5 (omega arith) (omega arith) (omega arith) (omega arith)
      (omega arith)

merge_cells_parser-anchor_example :
    merge_cells_parser with_band (cell_name 2 5)
    ≡ ok (cell_name (anchor (band ∷ []) (2, 5)).0 (anchor (band ∷ []) (2, 5)).1)
merge_cells_parser-anchor_example =
    merge_cells_parser-anchor with_band (record { count = pos 1; cells = area_ref band ∷ [] })
      (band ∷ []) 2 5 refl refl (omega arith, tt) (omega arith) (omega arith) (omega arith)
      (omega arith)

merge_cell-areas_example :
    merge_cell (cell_name 5 4) (cell_name 3 2) with_band
    ≡ ok (record with_band {
      merge_cells = some (record {
        count = pos 1;
        cells = area_ref band ∷ area_ref (ordered (record { c1 = 5; r1 = 4; c2 = 3; r2 = 2 })) ∷ [];
      });
    })
merge_cell-areas_example =
    merge_cell-areas with_band (record { count = pos 1; cells = area_ref band ∷ [] }) (band ∷ [])
      (record { c1 = 5; r1 = 4; c2 = 3; r2 = 2 }) refl refl (omega arith, tt) (omega arith)

crossing_areas_both_stored_example :
    (merge_cell (first_cell crossing) (last_cell crossing) with_band
      ≡ ok (record with_band {
        merge_cells =
            some (record { count = pos 1; cells = area_ref band ∷ area_ref crossing ∷ [] });
      }))
    × (covers band 2 4 ≡ true)
    × (covers crossing 2 4 ≡ true)
crossing_areas_both_stored_example =
    crossing_areas_both_stored with_band (record { count = pos 1; cells = area_ref band ∷ [] })
      crossing band refl refl (omega arith) (omega arith) (omega arith)

axes_of_band :
    (get_start_axis (area_ref band, []) ≡ first_cell band)
    × (get_end_axis (area_ref band, []) ≡ ok (last_cell band))
axes_of_band = axes-area_ref band []
