-- ===== src/Merge.antt =====
-- Merged cells: checkCellInArea, mergeCellsParser and MergeCell (cell.go).
pub mod Area
pub mod Refine
pub mod Overlap
use excelize.Common.{
  ℕ, Bool, true, false, ◌&&◌, ◌||◌, none, some, List, [], ◌∷◌, ◌++◌, ◌==◌, if◌then◌else◌, Bytes,
  to_upper, Result, ◌>>=◌, invalid_area, ok, err, fault,
}
use excelize.Common.Int.{ℤ, ltb_ℤ, leb_ℤ, eqb_ℤ, pos}
use excelize.Ref.Cell.{cell_name_to_coordinates, coordinates_to_cell_name, coordinates_or, name_or}
use excelize.Sheet.Data.{Worksheet}

-- `strings.Split` at one byte; there is always a part.
unfoldable pub split_cons : ℕ → List Bytes → List Bytes
split_cons c [] = (c ∷ []) ∷ []
split_cons c (p ∷ ps) = (c ∷ p) ∷ ps

unfoldable pub split : Bytes → ℕ → List Bytes
unfolding split_cons
split [] sep = [] ∷ []
split (c ∷ s) sep = if c == sep then [] ∷ split s sep else split_cons c (split s sep)

-- `col >= firstCol && col <= lastCol && row >= firstRow && row <= lastRow`.
unfoldable pub in_corners : ℤ × ℤ → ℤ × ℤ → ℤ × ℤ → Bool
in_corners (col, row) (first_col, first_row) (last_col, last_row) =
    leb_ℤ first_col col && leb_ℤ col last_col && leb_ℤ first_row row && leb_ℤ row last_row

unfoldable pub in_range : ℤ × ℤ → List Bytes → Bool
unfolding in_corners coordinates_or
in_range at (first ∷ last ∷ []) =
    in_corners at (coordinates_or (cell_name_to_coordinates first))
      (coordinates_or (cell_name_to_coordinates last))
in_range at rng = false

unfoldable pub check_cell_in_area : Bytes → Bytes → Result Bool
unfolding in_range split
check_cell_in_area cell area = do
  at ← cell_name_to_coordinates cell
  ok (in_range at (split area b':'))

-- `rng[0]`, which is always there.
unfoldable pub first_part : List Bytes → Bytes
first_part [] = []
first_part (p ∷ ps) = p

-- The loop goes on with the replaced axis.
unfoldable pub parser_loop : List Bytes → Bytes → Result Bytes
unfolding first_part
parser_loop [] axis = ok axis
parser_loop (ref ∷ refs) axis = check_cell_in_area axis ref >>= λ inside.
    parser_loop refs (if inside then first_part (split ref b':') else axis)

unfoldable pub merge_cells_parser : Worksheet → Bytes → Result Bytes
unfolding parser_loop
merge_cells_parser xlsx axis = elim xlsx.merge_cells [
  | none ↦ ok (to_upper axis)
  | some m ↦ parser_loop m.cells (to_upper axis)
]

-- The flag of checkCellInArea where its error is dropped.
unfoldable pub flag_or : Result Bool → Bool
flag_or (ok b) = b
flag_or (err e) = false
flag_or fault = false

unfoldable pub corners_meet : Bytes → Bytes → Bytes → Bytes → List Bytes → Result Bool
unfolding flag_or
corners_meet hcell vcell ref stored (first ∷ last ∷ []) = ok (
    flag_or (check_cell_in_area hcell stored)
    || flag_or (check_cell_in_area vcell stored)
    || flag_or (check_cell_in_area first ref)
    || flag_or (check_cell_in_area last ref))
corners_meet hcell vcell ref stored rng = err (invalid_area stored)

-- The loop of MergeCell over the stored areas; true stands for its early `return nil`.
unfoldable pub overlap_loop : Bytes → Bytes → Bytes → List Bytes → Result Bool
unfolding corners_meet
overlap_loop hcell vcell ref [] = ok false
overlap_loop hcell vcell ref (stored ∷ refs) =
    corners_meet hcell vcell ref stored (split stored b':') >>= λ met.
    if met then ok true else overlap_loop hcell vcell ref refs

unfoldable pub add_area : Bytes → Bytes → Worksheet → Result Worksheet
unfolding overlap_loop
add_area hcell vcell xlsx =
    let ref = hcell ++ b':' ∷ vcell in
    elim xlsx.merge_cells [
      | none ↦ ok (record xlsx { merge_cells = some (record { count = pos 0; cells = ref ∷ [] }) })
      | some m ↦ overlap_loop hcell vcell ref m.cells >>= λ met. ok (
          if met then xlsx else record xlsx {
            merge_cells = some (record { count = m.count; cells = m.cells ++ ref ∷ [] });
          })
    ]

unfoldable pub least : ℤ → ℤ → ℤ
least a b = if ltb_ℤ b a then b else a

unfoldable pub greatest : ℤ → ℤ → ℤ
greatest a b = if ltb_ℤ b a then a else b

-- `hcol, vcol = vcol, hcol` where `vcol < hcol`, and so for the rows.
unfoldable pub merge_cell : Bytes → Bytes → Worksheet → Result Worksheet
unfolding add_area least greatest name_or
merge_cell hcell vcell xlsx = do
  (hcol, hrow) ← cell_name_to_coordinates hcell
  (vcol, vrow) ← cell_name_to_coordinates vcell
  if eqb_ℤ hcol vcol && eqb_ℤ hrow vrow
      then ok xlsx
      else add_area (name_or (coordinates_to_cell_name (least hcol vcol) (least hrow vrow)))
          (name_or (coordinates_to_cell_name (greatest hcol vcol) (greatest hrow vrow))) xlsx
