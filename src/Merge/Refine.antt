-- ===== src/Merge/Refine.antt =====
-- The functions over references do on areas what these definitions do on numbers.
use Prim.Native.Nat.{min, max}
use excelize.Common.{
  ℕ, ◌≤◌, ◌<◌, ◌≡◌, refl, ap, ◌∙◌, inl, inr, Bool, false, ◌&&◌, ◌||◌, none, some, List, [], ◌∷◌,
  ◌++◌, arith, ◌==◌, if◌then◌else◌, Bool-cases, All, Bytes, ok,
}
use excelize.Common.Int.{max_int, eqb_ℤ, pos}
use excelize.Merge.{
  first_part, parser_loop, merge_cells_parser, flag_or, corners_meet, overlap_loop, add_area, least,
  greatest, merge_cell,
}
use excelize.Merge.Area.{
  Area, IsArea, first_cell, last_cell, area_ref, covers, split-area_ref, to_upper-cell_name,
  check_cell_in_area-covers,
}
use excelize.Ref.Cell.{name_or}
use excelize.Ref.Cell.RoundTrip.{
  cell_name, coordinates_to_cell_name-pos, cell_name_to_coordinates-cell_name,
}
use excelize.Sheet.Data.{MergeCells, Worksheet}

abbrev pub refs : List Area → List Bytes
refs [] = []
refs (a ∷ as') = area_ref a ∷ refs as'

abbrev pub AllAreas : List Area → Type 0
AllAreas = All IsArea

-- The cell whose data a cell shares: the first cell of the last area that holds it, where each
-- area is asked about the cell found so far.
abbrev pub anchor : List Area → ℕ × ℕ → ℕ × ℕ
anchor [] at = at
anchor (a ∷ as') at = anchor as' (if covers a at.0 at.1 then (a.c1, a.r1) else at)

abbrev InRange : ℕ × ℕ → Type 0
InRange at = (0 < at.0) × (at.0 ≤ max_int) × (0 < at.1) × (at.1 ≤ max_int)

parser_loop-anchor :
    (areas : List Area) (at : ℕ × ℕ)
    → AllAreas areas
    → InRange at
    → parser_loop (refs areas) (cell_name at.0 at.1)
      ≡ ok (cell_name (anchor areas at).0 (anchor areas at).1)
unfolding parser_loop first_part
parser_loop-anchor [] at _ _ = refl
parser_loop-anchor (a ∷ areas) at (v, vs) (hc, lc, hr, lr) =
    rw (check_cell_in_area-covers a at.0 at.1 v hc lc hr lr, split-area_ref a)
      (elim (Bool-cases (covers a at.0 at.1)) [
        | inl inside ↦
            rw (inside, anchor)
              (parser_loop-anchor areas (a.c1, a.r1) vs (v.c1_pos, v.c1_max, v.r1_pos, v.r1_max))
        | inr outside ↦ rw (outside, anchor) (parser_loop-anchor areas at vs (hc, lc, hr, lr))
      ])

-- mergeCellsParser leads a cell with coordinates in range to its anchor, whatever areas in range
-- the sheet has.
pub merge_cells_parser-anchor :
    (xlsx : Worksheet) (m : MergeCells) (areas : List Area) (c r : ℕ)
    → xlsx.merge_cells ≡ some m
    → m.cells ≡ refs areas
    → AllAreas areas
    → 0 < c
    → c ≤ max_int
    → 0 < r
    → r ≤ max_int
    → merge_cells_parser xlsx (cell_name c r)
      ≡ ok (cell_name (anchor areas (c, r)).0 (anchor areas (c, r)).1)
unfolding merge_cells_parser
merge_cells_parser-anchor xlsx m areas c r em er vs hc lc hr lr =
    rw (em, er, to_upper-cell_name c r) (parser_loop-anchor areas (c, r) vs (hc, lc, hr, lr))

pub merge_cells_parser-none :
    (xlsx : Worksheet) (c r : ℕ)
    → xlsx.merge_cells ≡ none
    → merge_cells_parser xlsx (cell_name c r) ≡ ok (cell_name c r)
unfolding merge_cells_parser
merge_cells_parser-none xlsx c r e = rw e (ap ok (to_upper-cell_name c r))

-- A corner of one of two areas lies in the other.
abbrev pub corner_inside : Area → Area → Bool
corner_inside new old =
    covers old new.c1 new.r1
    || covers old new.c2 new.r2
    || covers new old.c1 old.r1
    || covers new old.c2 old.r2

abbrev pub some_corner_inside : Area → List Area → Bool
some_corner_inside new [] = false
some_corner_inside new (a ∷ areas) = corner_inside new a || some_corner_inside new areas

overlap_loop-areas :
    (new : Area) (areas : List Area)
    → IsArea new
    → AllAreas areas
    → overlap_loop (first_cell new) (last_cell new) (area_ref new) (refs areas)
      ≡ ok (some_corner_inside new areas)
unfolding overlap_loop corners_meet flag_or
overlap_loop-areas new [] v _ = refl
overlap_loop-areas new (a ∷ areas) v (va, vs) =
    rw
      (
        split-area_ref a,
        check_cell_in_area-covers a new.c1 new.r1 va v.c1_pos v.c1_max v.r1_pos v.r1_max,
        check_cell_in_area-covers a new.c2 new.r2 va v.c2_pos v.c2_max v.r2_pos v.r2_max,
        check_cell_in_area-covers new a.c1 a.r1 v va.c1_pos va.c1_max va.r1_pos va.r1_max,
        check_cell_in_area-covers new a.c2 a.r2 v va.c2_pos va.c2_max va.r2_pos va.r2_max,
      )
      (elim (Bool-cases (corner_inside new a)) [
        | inl met ↦ rw met
        | inr apart ↦ rw (apart, overlap_loop-areas new areas v vs)
      ])

-- The area with its corners in order.
abbrev pub ordered : Area → Area
ordered a = record {
  c1 = min a.c1 a.c2;
  r1 = min a.r1 a.r2;
  c2 = max a.c1 a.c2;
  r2 = max a.r1 a.r2;
}

pub ordered-IsArea : (a : Area) → IsArea a → IsArea (ordered a)
ordered-IsArea a v = omega arith

abbrev pub one_cell : Area → Bool
one_cell a = (a.c1 == a.c2) && (a.r1 == a.r2)

add_area-areas :
    (xlsx : Worksheet) (m : MergeCells) (areas : List Area) (new : Area)
    → xlsx.merge_cells ≡ some m
    → m.cells ≡ refs areas
    → AllAreas areas
    → IsArea new
    → add_area (first_cell new) (last_cell new) xlsx
      ≡ ok (
          if some_corner_inside new areas then xlsx else record xlsx {
            merge_cells = some (record { count = m.count; cells = m.cells ++ area_ref new ∷ [] });
          })
unfolding add_area
add_area-areas xlsx m areas new em er vs v = rw em (
    rw (
      ap (overlap_loop (first_cell new) (last_cell new) (area_ref new)) er
      ∙ overlap_loop-areas new areas v vs))

pub least-pos : (a b : ℕ) → least (pos a) (pos b) ≡ pos (min a b)
unfolding least
least-pos a b = ground arith

pub greatest-pos : (a b : ℕ) → greatest (pos a) (pos b) ≡ pos (max a b)
unfolding greatest
greatest-pos a b = ground arith

same_cell :
    (a b c d : ℕ) → (eqb_ℤ (pos a) (pos b) && eqb_ℤ (pos c) (pos d)) ≡ ((a == b) && (c == d))
same_cell a b c d = ground arith

merge_cell-add_area :
    (xlsx : Worksheet) (a : Area)
    → IsArea a
    → merge_cell (first_cell a) (last_cell a) xlsx ≡ (
        if one_cell a
        then ok xlsx
        else add_area (first_cell (ordered a)) (last_cell (ordered a)) xlsx)
unfolding merge_cell name_or
merge_cell-add_area xlsx a v =
    rw
      (
        cell_name_to_coordinates-cell_name a.c1 a.r1 v.c1_pos v.c1_max v.r1_pos v.r1_max,
        cell_name_to_coordinates-cell_name a.c2 a.r2 v.c2_pos v.c2_max v.r2_pos v.r2_max,
        least-pos a.c1 a.c2,
        least-pos a.r1 a.r2,
        greatest-pos a.c1 a.c2,
        greatest-pos a.r1 a.r2,
        coordinates_to_cell_name-pos (min a.c1 a.c2) (min a.r1 a.r2)
            (omega (arith, v.c1_pos, v.c2_pos)) (omega (arith, v.r1_pos, v.r2_pos)),
        coordinates_to_cell_name-pos (max a.c1 a.c2) (max a.r1 a.r2)
            (omega (arith, v.c1_pos, v.c2_pos)) (omega (arith, v.r1_pos, v.r2_pos)),
      )
      (ap
        (λ b. if b then ok xlsx else add_area (first_cell (ordered a)) (last_cell (ordered a)) xlsx)
        (same_cell a.c1 a.c2 a.r1 a.r2))

-- MergeCell on two corners in range, over a sheet whose areas are in range: one cell changes
-- nothing; an area that has a corner in a stored area, or holds a corner of one, changes nothing;
-- any other is appended with its corners in order.
pub merge_cell-areas :
    (xlsx : Worksheet) (m : MergeCells) (areas : List Area) (a : Area)
    → xlsx.merge_cells ≡ some m
    → m.cells ≡ refs areas
    → AllAreas areas
    → IsArea a
    → merge_cell (first_cell a) (last_cell a) xlsx
      ≡ ok (
          if one_cell a || some_corner_inside (ordered a) areas then xlsx else record xlsx {
            merge_cells =
                some (record { count = m.count; cells = m.cells ++ area_ref (ordered a) ∷ [] });
          })
merge_cell-areas xlsx m areas a em er vs v =
    merge_cell-add_area xlsx a v ∙ elim (Bool-cases (one_cell a)) [
      | inl one ↦ rw one
      | inr more ↦ rw more (add_area-areas xlsx m areas (ordered a) em er vs (ordered-IsArea a v))
    ]
