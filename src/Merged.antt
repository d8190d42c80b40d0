-- ===== src/Merged.antt =====
-- The list of merged cells and its accessors (cellmerged.go).
use excelize.Common.{◌≡◌, ap, none, some, List, [], ◌∷◌, Bytes, Result, ◌>>=◌, ok, err, fault}
use excelize.Merge.{split, first_part}
use excelize.Merge.Area.{Area, first_cell, last_cell, area_ref, split-area_ref}
use excelize.Merge.Refine.{refs}
use excelize.Sheet.Data.{Worksheet}
use excelize.Value.{Book, get_cell_value}

abbrev pub MergeCell : Type 0
MergeCell = Bytes × Bytes

-- The error of GetCellValue is dropped, a panic is not.
unfoldable pub value_or : Result Bytes → Result Bytes
value_or (ok v) = ok v
value_or (err e) = ok []
value_or fault = fault

unfoldable pub list_loop : Book → Worksheet → List Bytes → Result (List MergeCell)
unfolding value_or
list_loop b xlsx [] = ok []
list_loop b xlsx (ref ∷ refs) = do
  val ← value_or (get_cell_value b (first_part (split ref b':')) xlsx)
  rest ← list_loop b xlsx refs
  ok ((ref, val) ∷ rest)

unfoldable pub get_merge_cells : Book → Worksheet → Result (List MergeCell)
unfolding list_loop
get_merge_cells b xlsx = elim xlsx.merge_cells [ none ↦ ok [] | some m ↦ list_loop b xlsx m.cells ]

unfoldable pub second_part : List Bytes → Result Bytes
second_part (p ∷ q ∷ ps) = ok q
second_part ps = fault

unfoldable pub get_start_axis : MergeCell → Bytes
get_start_axis m = first_part (split m.0 b':')

unfoldable pub get_end_axis : MergeCell → Result Bytes
unfolding second_part
get_end_axis m = second_part (split m.0 b':')

-- The axes of a merged area are the names of its two corners.
pub axes-area_ref :
    (a : Area) (v : Bytes)
    → (get_start_axis (area_ref a, v) ≡ first_cell a)
      × (get_end_axis (area_ref a, v) ≡ ok (last_cell a))
unfolding get_start_axis get_end_axis first_part
axes-area_ref a v = (ap first_part (split-area_ref a), ap second_part (split-area_ref a))
