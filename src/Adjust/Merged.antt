-- ===== src/Adjust/Merged.antt =====
-- adjustMergeCells (adjust.go). The slice holds pointers: here a pointer is a position in a store
-- of references, so that an area that the loop meets twice is written twice.
use excelize.Common.{
  ℕ, zero, suc, Bool, true, false, not, ◌&&◌, Option, none, some, List, [], ◌∷◌, ◌++◌, ltb,
  if◌then◌else◌, length, get_elem?, set, Bytes, Result, ◌>>=◌, ok, fault,
}
use excelize.Common.Int.{ℤ, ◌+ℤ◌, ltb_ℤ, leb_ℤ, eqb_ℤ, pos}
use excelize.Common.Slices.{Slice, slice_of, elements, cut}
use excelize.Merge.{split}
use excelize.Ref.Cell.{cell_name_to_coordinates, coordinates_to_cell_name}
use excelize.Sheet.Data.{MergeCells, Worksheet}

pub record Merging : Type 0 where
  pub refs : List Bytes
  pub slots : Slice ℕ
  pub present : Bool
  pub count : ℤ

-- The inner function adjust.
unfoldable pub adjust_number : ℤ → ℤ → ℤ → ℤ
adjust_number num offset v =
    if leb_ℤ num v then (if ltb_ℤ (v +ℤ offset) (pos 1) then pos 1 else v +ℤ offset) else v

abbrev pub adjust_corner : Bool → ℤ → ℤ → ℤ × ℤ → ℤ × ℤ
adjust_corner dir num offset (col, row) =
    if dir then (col, adjust_number num offset row) else (adjust_number num offset col, row)

abbrev pub same_corner : ℤ × ℤ → ℤ × ℤ → Bool
same_corner (c, r) (c', r') = eqb_ℤ c c' && eqb_ℤ r r'

-- An area that has shrunk to one cell leaves the list, or the list becomes nil.
unfoldable pub remove_area : ℕ → Merging → Result Merging
remove_area i m =
    if not m.present
    then fault
    else if ltb 1 m.slots.len
    then (cut i m.slots >>= λ s. ok (record m { slots = s; count = pos s.len }))
    else ok (record m { present = false })

-- The corners of a reference, each with its error; without a second part the code panics.
unfoldable pub corners_of : List Bytes → Result ((ℤ × ℤ) × (ℤ × ℤ))
corners_of (first ∷ last ∷ rest) = do
  a ← cell_name_to_coordinates first
  b ← cell_name_to_coordinates last
  ok (a, b)
corners_of rng = fault

unfoldable pub place_area : ℕ → ℕ → ℤ × ℤ → ℤ × ℤ → Merging → Result Merging
unfolding remove_area
place_area i p a b m = do
  m' ← (if same_corner a b then remove_area i m else ok m)
  first ← coordinates_to_cell_name a.0 a.1
  last ← coordinates_to_cell_name b.0 b.1
  ok (record m' { refs = set m'.refs p (first ++ b':' ∷ last) })

-- One round of the loop, at the slot i that holds the pointer p to the reference `ref`.
unfoldable pub adjust_area : Bool → ℤ → ℤ → ℕ → ℕ → Bytes → Merging → Result Merging
unfolding adjust_number corners_of place_area split
adjust_area dir num offset i p ref m = do
  (a, b) ← corners_of (split ref b':')
  place_area i p (adjust_corner dir num offset a) (adjust_corner dir num offset b) m

unfoldable pub area_loop : ℕ → ℕ → Bool → ℤ → ℤ → Merging → Result Merging
unfolding adjust_area
area_loop zero i dir num offset m = ok m
area_loop (suc rounds) i dir num offset m = elim (get_elem? m.slots.backing i) [
  | none ↦ fault
  | some p ↦ elim (get_elem? m.refs p) [
    | none ↦ fault
    | some ref ↦ adjust_area dir num offset i p ref m >>= area_loop rounds (suc i) dir num offset
  ]
]

unfoldable pub positions : ℕ → ℕ → List ℕ
positions zero i = []
positions (suc n) i = i ∷ positions n (suc i)

unfoldable pub pointed : List Bytes → List ℕ → List Bytes
pointed refs [] = []
pointed refs (p ∷ ps) = elim (get_elem? refs p) [ none ↦ [] | some r ↦ r ] ∷ pointed refs ps

abbrev pub merging_of : MergeCells → Merging
merging_of m = record {
  refs = m.cells;
  slots = slice_of (positions (length m.cells) 0);
  present = true;
  count = m.count;
}

unfoldable pub merged_result : Merging → Option MergeCells
unfolding pointed
merged_result m =
    if m.present
    then some (record { count = m.count; cells = pointed m.refs (elements m.slots) })
    else none

unfoldable pub adjust_merge_cells : Bool → ℤ → ℤ → Worksheet → Result Worksheet
unfolding area_loop positions merged_result
adjust_merge_cells dir num offset xlsx = elim xlsx.merge_cells [
  | none ↦ ok xlsx
  | some m ↦ area_loop (length m.cells) 0 dir num offset (merging_of m) >>= λ done.
      ok (record xlsx { merge_cells = merged_result done })
]
