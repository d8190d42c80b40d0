-- ===== src/Merge/Overlap.antt =====
-- What the corner test of MergeCell misses.
use Prim.Native.Nat.{min, max}
use excelize.Common.{
  ◌≤◌, ◌<◌, ◌≡◌, ap, ◌∙◌, Bool, true, false, ◌||◌, some, List, [], ◌∷◌, ◌++◌, arith, if◌then◌else◌,
  Bytes, ok,
}
use excelize.Common.Int.{ℤ}
use excelize.Merge.{merge_cell}
use excelize.Merge.Area.{Area, IsArea, first_cell, last_cell, area_ref, covers}
use excelize.Merge.Refine.{corner_inside, some_corner_inside, ordered, one_cell, merge_cell-areas}
use excelize.Sheet.Data.{MergeCells, Worksheet}

-- The area runs across the stored one, so that no corner of either lies in the other.
pub record Crosses (new old : Area) : Type 0 where
  pub left : new.c1 < old.c1
  pub width : old.c1 ≤ old.c2
  pub right : old.c2 < new.c2
  pub top : old.r1 < new.r1
  pub height : new.r1 ≤ new.r2
  pub bottom : new.r2 < old.r2

ordered-Crosses : (new old : Area) → Crosses new old → ordered new ≡ new
ordered-Crosses new old x =
    λ i. record { c1 = c1_same i; r1 = r1_same i; c2 = c2_same i; r2 = r2_same i }
  where
    c1_same : min new.c1 new.c2 ≡ new.c1
    c1_same = omega (arith, x.left, x.width, x.right)

    r1_same : min new.r1 new.r2 ≡ new.r1
    r1_same = omega (arith, x.height)

    c2_same : max new.c1 new.c2 ≡ new.c2
    c2_same = omega (arith, x.left, x.width, x.right)

    r2_same : max new.r1 new.r2 ≡ new.r2
    r2_same = omega (arith, x.height)

corner_inside-Crosses : (new old : Area) → Crosses new old → corner_inside new old ≡ false
corner_inside-Crosses new old x = ground arith

one_cell-Crosses : (new old : Area) → Crosses new old → one_cell new ≡ false
one_cell-Crosses new old x = ground arith

apart :
    (new old : Area) → Crosses new old → (one_cell new || some_corner_inside new (old ∷ [])) ≡ false
apart new old x = rw (one_cell-Crosses new old x, corner_inside-Crosses new old x)

abbrev stored_with : Worksheet → ℤ → List Bytes → Worksheet
stored_with xlsx n cs = record xlsx { merge_cells = some (record { count = n; cells = cs }) }

abbrev outcome : Worksheet → MergeCells → Bool → Area → Worksheet
outcome xlsx m b o = if b then xlsx else stored_with xlsx m.count (m.cells ++ area_ref o ∷ [])

-- Two areas that cross are both stored, although they share the cell at the first column of the
-- stored one and the first row of the new one.
pub crossing_areas_both_stored :
    (xlsx : Worksheet) (m : MergeCells) (new old : Area)
    → xlsx.merge_cells ≡ some m
    → m.cells ≡ area_ref old ∷ []
    → IsArea old
    → IsArea new
    → Crosses new old
    → (merge_cell (first_cell new) (last_cell new) xlsx
        ≡ ok (record xlsx {
          merge_cells = some (record { count = m.count; cells = area_ref old ∷ area_ref new ∷ [] });
        }))
      × (covers old old.c1 new.r1 ≡ true)
      × (covers new old.c1 new.r1 ≡ true)
crossing_areas_both_stored xlsx m new old em er vo vn x = (
  merge_cell-areas xlsx m (old ∷ []) new em er (vo, tt) vn
      ∙ ap (λ o. ok (outcome xlsx m (one_cell new || some_corner_inside o (old ∷ [])) o))
          (ordered-Crosses new old x)
      ∙ ap (λ b. ok (outcome xlsx m b new)) (apart new old x)
      ∙ ap (λ cs. ok (stored_with xlsx m.count (cs ++ area_ref new ∷ []))) er,
  ground arith,
  ground arith,
)
