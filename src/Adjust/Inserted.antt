-- ===== src/Adjust/Inserted.antt =====
-- Insertion of a row on a well-formed grid: which row stands where behind adjustRowDimensions and
-- checkSheet.
-- The row with an index, in a grid whose first row has the index k.
use mathlib.Core.Path.{ap₂}
use excelize.Adjust.Check.{or_else, exists_rows}
use excelize.Adjust.Dimensions.{ajust_single_row_dimensions, adjust_row_dimensions}
use excelize.Common.{
  ℕ, zero, suc, ◌+◌, ◌≤◌, ◌<◌, ◌≡◌, refl, ap, ◌∙◌, Bool, true, false, ◌&&◌, Option, none, some,
  List, [], ◌∷◌, arith, ltb, ◌==◌, if◌then◌else◌, length,
}
use excelize.Common.Int.{max_int, ◌+ℤ◌, ltb_ℤ, leb_ℤ, eqb_ℤ, pos}
use excelize.Sheet.Data.{Row}
use excelize.Sheet.Grid.{IsRows}

abbrev pub numbered : ℕ → List Row → ℕ → Option Row
numbered k [] m = none
numbered k (d ∷ ds) m = if k == m then some d else numbered (suc k) ds m

numbered-lt : (k : ℕ) (rows : List Row) (m : ℕ) → m < k → numbered k rows m ≡ none
numbered-lt k [] m h = refl
numbered-lt k (d ∷ ds) m h =
    let e : (k == m) ≡ false = ground arith in rw e (numbered-lt (suc k) ds m (omega arith))

-- A row that moves down by one.
abbrev pub moved_down : Row → Row
moved_down d = ajust_single_row_dimensions d (d.r +ℤ pos 1)

abbrev pub moved? : Option Row → Option Row
moved? none = none
moved? (some d) = some (moved_down d)

-- The row with an index m behind the insertion of a row at the index n.
abbrev pub shifted_row : ℕ → (ℕ → Option Row) → ℕ → Option Row
shifted_row n f zero = if ltb 0 n then f 0 else none
shifted_row n f (suc m) =
    if ltb (suc m) n then f (suc m) else if suc m == n then none else moved? (f m)

unmoved_head :
    (n k m : ℕ) (d : Row) (o o' : Option Row)
    → k < n
    → (k ≡ suc m → o ≡ none)
    → or_else
        (if ltb (suc m) n then o else if suc m == n then none else moved? o')
        (if k == suc m then some d else none)
      ≡ (if ltb (suc m) n
          then (if k == suc m then some d else o)
          else if suc m == n
          then none
          else moved? (if k == m then some d else o'))
unmoved_head n k m d none none h e = ground arith
unmoved_head n k m d none (some x) h e = ground arith
unmoved_head n k m d (some x) none h e = ground (arith, e)
unmoved_head n k m d (some x) (some y) h e = ground (arith, e)

moved_head :
    (n k m : ℕ) (d : Row) (o o' : Option Row)
    → n ≤ k
    → (m < k → o' ≡ none)
    → (k ≡ m → o' ≡ none)
    → (suc m < k → o ≡ none)
    → or_else
        (if ltb (suc m) n then o else if suc m == n then none else moved? o')
        (if suc k == suc m then some (moved_down d) else none)
      ≡ (if ltb (suc m) n
          then (if k == suc m then some d else o)
          else if suc m == n
          then none
          else moved? (if k == m then some d else o'))
moved_head n k m d none none h e e' f = ground arith
moved_head n k m d none (some x) h e e' f = ground (arith, e, e')
moved_head n k m d (some x) none h e e' f = ground (arith, f)
moved_head n k m d (some x) (some y) h e e' f = ground (arith, e, e', f)

pub next_pos : (k : ℕ) → suc k < max_int → pos (suc k) +ℤ pos 1 ≡ pos (suc (suc k))
unfolding ◌+ℤ◌
next_pos k h = ground arith

pub next_number :
    (k : ℕ) (d : Row) → d.r ≡ pos (suc k) → suc k < max_int → d.r +ℤ pos 1 ≡ pos (suc (suc k))
next_number k d er h = ap (λ z. z +ℤ pos 1) er ∙ next_pos k h

-- The row that adjustRowDimensions leaves in place of the row with the index k.
pub head_lem :
    (n k : ℕ) (d : Row)
    → d.r ≡ pos (suc k)
    → suc k < max_int
    → (if leb_ℤ (pos (suc n)) d.r && ltb_ℤ (pos 0) (d.r +ℤ pos 1) then moved_down d else d)
      ≡ (if ltb k n then d else moved_down d)
head_lem n k d er h =
    ap (λ t. if t then moved_down d else d)
      (ap₂ (λ a b. leb_ℤ (pos (suc n)) a && ltb_ℤ (pos 0) b) er (next_number k d er h))
    ∙ ground arith

-- One row more at the top.
unmoved_step :
    (n k m : ℕ) (d : Row) (ds : List Row)
    → d.r ≡ pos (suc k)
    → k < n
    → or_else
        (shifted_row n (numbered (suc k) ds) m)
        (if eqb_ℤ d.r (pos (suc m)) then some d else none)
      ≡ shifted_row n (numbered k (d ∷ ds)) m
unmoved_step n k zero d ds er lt =
    let e : numbered (suc k) ds 0 ≡ none = numbered-lt (suc k) ds 0 (omega arith) in
    rw (e, er) (ground arith)
unmoved_step n k (suc m) d ds er lt =
    let test : eqb_ℤ d.r (pos (suc (suc m))) ≡ (k == suc m) =
      ap (λ z. eqb_ℤ z (pos (suc (suc m)))) er ∙ ground arith in
    rw test (
      unmoved_head n k m d (numbered (suc k) ds (suc m)) (numbered (suc k) ds m) lt
        (λ q. numbered-lt (suc k) ds (suc m) (omega arith)))

moved_step :
    (n k m : ℕ) (d : Row) (ds : List Row)
    → d.r +ℤ pos 1 ≡ pos (suc (suc k))
    → n ≤ k
    → or_else
        (shifted_row n (numbered (suc k) ds) m)
        (if eqb_ℤ (d.r +ℤ pos 1) (pos (suc m)) then some (moved_down d) else none)
      ≡ shifted_row n (numbered k (d ∷ ds)) m
moved_step n k zero d ds er le =
    let e : numbered (suc k) ds 0 ≡ none = numbered-lt (suc k) ds 0 (omega arith) in
    let test : eqb_ℤ (d.r +ℤ pos 1) (pos 1) ≡ false = ap (λ z. eqb_ℤ z (pos 1)) er ∙ ground arith in
    rw (e, test) (ground arith)
moved_step n k (suc m) d ds er le =
    let test : eqb_ℤ (d.r +ℤ pos 1) (pos (suc (suc m))) ≡ (suc k == suc m) =
      ap (λ z. eqb_ℤ z (pos (suc (suc m)))) er ∙ ground arith in
    rw test (
      moved_head n k m d (numbered (suc k) ds (suc m)) (numbered (suc k) ds m) le
        (λ q. numbered-lt (suc k) ds m (omega arith)) (λ q. numbered-lt (suc k) ds m (omega arith))
        (λ q. numbered-lt (suc k) ds (suc m) (omega arith)))

pub exists_rows-adjusted :
    (n k : ℕ) (rows : List Row) (m : ℕ)
    → IsRows k rows
    → k + length rows < max_int
    → exists_rows (adjust_row_dimensions rows (pos (suc n)) (pos 1)) (pos (suc m))
      ≡ shifted_row n (numbered k rows) m
unfolding exists_rows adjust_row_dimensions
exists_rows-adjusted n k [] zero g h = ground arith
exists_rows-adjusted n k [] (suc m) g h = ground arith
exists_rows-adjusted n k (d ∷ ds) m (b, er, hc, g) h =
    ap₂ (λ o (x : Row). or_else o (if eqb_ℤ x.r (pos (suc m)) then some x else none))
      (exists_rows-adjusted n (suc k) ds m g (omega arith)) (head_lem n k d er (omega arith))
    ∙ by_test (ltb k n) refl
  where
    by_test :
        (t : Bool)
        → ltb k n ≡ t
        → or_else (shifted_row n (numbered (suc k) ds) m) (
            if eqb_ℤ (if t then d else moved_down d).r (pos (suc m))
            then some (if t then d else moved_down d)
            else none)
          ≡ shifted_row n (numbered k (d ∷ ds)) m
    by_test true e = unmoved_step n k m d ds er (ground arith)
    by_test false e = moved_step n k m d ds (next_number k d er (omega arith)) (ground arith)
