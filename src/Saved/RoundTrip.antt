-- ===== src/Saved/RoundTrip.antt =====
-- checkSheet leaves rows that are numbered in order, and the round trip through a saved file.
use mathlib.Core.Option.{some-injective}
use excelize.Adjust.Check.{
  or_else, exists_rows, row_or_blank, sheet_loop, row_count, check_sheet, check_row,
}
use excelize.Common.{
  ℕ, zero, suc, ◌+◌, ◌≤◌, ◌≡◌, refl, sym, ap, ◌∙◌, true, false, Option, none, some, List, [], ◌∷◌,
  arith, if◌then◌else◌, length, get_elem?, drop, get_last?, get_elem?-lt, ◌>>=◌, ok,
}
use excelize.Common.Int.{max_int, eqb_ℤ, pos}
use excelize.Ref.Cell.RoundTrip.{cell_name}
use excelize.Saved.{is_kept, trim_rows, trimmed}
use excelize.Saved.Reloaded.{saved, check_rows-view}
use excelize.Sheet.Data.{Row, Worksheet, blank_cell}
use excelize.Sheet.Grid.{IsRows, IsGrid}
use excelize.Sheet.View.{view}

-- Row i has the number i + 1.
abbrev pub AreNumbered : ℕ → List Row → Type 0
AreNumbered k [] = Unit
AreNumbered k (d ∷ ds) = (d.r ≡ pos (suc k)) × AreNumbered (suc k) ds

trim_rows-AreNumbered : (k : ℕ) (ds : List Row) → IsRows k ds → AreNumbered k (trim_rows ds)
unfolding trim_rows
trim_rows-AreNumbered k [] g = tt
trim_rows-AreNumbered k (d ∷ ds) (b, e, cells, g) = (e, trim_rows-AreNumbered (suc k) ds g)

exists_rows-below :
    (k n : ℕ) (ds : List Row) → n ≤ k → AreNumbered k ds → exists_rows ds (pos n) ≡ none
unfolding exists_rows
exists_rows-below k n [] le g = refl
exists_rows-below k n (d ∷ ds) le (e, g) =
    let other : eqb_ℤ d.r (pos n) ≡ false = ap (λ z. eqb_ℤ z (pos n)) e ∙ ground arith in
    rw (exists_rows-below (suc k) n ds (omega arith) g, other) refl

exists_rows-at :
    (k i : ℕ) (ds : List Row)
    → AreNumbered k ds
    → exists_rows ds (pos (suc (k + i))) ≡ get_elem? ds i
unfolding exists_rows
exists_rows-at k i [] g = refl
exists_rows-at k zero (d ∷ ds) (e, g) =
    let self : eqb_ℤ d.r (pos (suc (k + 0))) ≡ true =
      ap (λ z. eqb_ℤ z (pos (suc (k + 0)))) e ∙ ground arith in
    rw (exists_rows-below (suc k) (suc (k + 0)) ds (omega arith) g, self) refl
exists_rows-at k (suc i) (d ∷ ds) (e, g) =
    let q : suc k + i ≡ k + suc i = omega arith in
    let other : eqb_ℤ d.r (pos (suc (k + suc i))) ≡ false =
      ap (λ z. eqb_ℤ z (pos (suc (k + suc i)))) e ∙ ground arith in
    let found = ap (λ m. exists_rows ds (pos (suc m))) (sym q) ∙ exists_rows-at (suc k) i ds g in
    by_found (get_elem? ds i) found other
  where
    by_found :
        (o : Option Row)
        → exists_rows ds (pos (suc (k + suc i))) ≡ o
        → eqb_ℤ d.r (pos (suc (k + suc i))) ≡ false
        → or_else
            (exists_rows ds (pos (suc (k + suc i))))
            (if eqb_ℤ d.r (pos (suc (k + suc i))) then some d else none)
          ≡ o
    by_found none f other = rw (f, other) refl
    by_found (some y) f other = rw f refl

drop-all : (i : ℕ) (rows : List Row) → length rows ≤ i → drop i rows ≡ []
drop-all zero [] h = refl
drop-all zero (x ∷ xs) h = absurd (omega arith)
drop-all (suc i) [] h = refl
drop-all (suc i) (x ∷ xs) h = drop-all i xs (omega arith)

drop-cons :
    (i : ℕ) (rows : List Row) (d : Row)
    → get_elem? rows i ≡ some d
    → drop i rows ≡ d ∷ drop (suc i) rows
drop-cons i [] d h = absurd (cc)
drop-cons zero (x ∷ xs) d h = ap (λ y. y ∷ xs) (some-injective _ _ h)
drop-cons (suc i) (x ∷ xs) d h = drop-cons i xs d h

sheet_loop-drop :
    (rounds i : ℕ) (rows : List Row)
    → AreNumbered 0 rows
    → i + rounds ≡ length rows
    → sheet_loop rounds i rows ≡ drop i rows
unfolding sheet_loop row_or_blank
sheet_loop-drop zero i rows g e = sym (drop-all i rows (omega (arith, e)))
sheet_loop-drop (suc rounds) i rows g e =
    let (d, at) = get_elem?-lt rows i (omega (arith, e)) in
    let q : 0 + i ≡ i = omega arith in
    let found : exists_rows rows (pos (suc i)) ≡ some d =
      ap (λ m. exists_rows rows (pos (suc m))) (sym q) ∙ exists_rows-at 0 i rows g ∙ at in
    rw (found, sheet_loop-drop rounds (suc i) rows g (omega (arith, e)))
      (sym (drop-cons i rows d at))

last_number :
    (k : ℕ) (d : Row) (ds : List Row)
    → AreNumbered k (d ∷ ds)
    → (z : Row) × (get_last? (d ∷ ds) ≡ some z) × (z.r ≡ pos (suc (k + length ds)))
last_number k d [] (e, g) = (d, refl, e ∙ ap (λ m. pos (suc m)) (omega arith))
last_number k d (x ∷ xs) (e, g) =
    let (z, last, e') = last_number (suc k) x xs g in
    (z, last, e' ∙ ap (λ m. pos (suc m)) (omega arith))

row_count-numbered : (rows : List Row) → AreNumbered 0 rows → row_count rows ≡ length rows
unfolding row_count
row_count-numbered [] g = refl
row_count-numbered (d ∷ ds) g =
    let (z, last, e) = last_number 0 d ds g in
    let n : z.r ≡ pos (suc (length ds)) = e ∙ ap (λ m. pos (suc m)) (omega arith) in
    rw (last, n) (ground arith)

check_sheet-numbered : (x : Worksheet) → AreNumbered 0 x.rows → check_sheet x ≡ x
unfolding check_sheet
check_sheet-numbered x g =
    ap (λ rows. record x { rows = rows })
      (ap (λ n. sheet_loop n 0 x.rows) (row_count-numbered x.rows g)
        ∙ sheet_loop-drop (length x.rows) 0 x.rows g (omega arith))

-- A worksheet on a well-formed grid that is trimmed as workSheetWriter does, and checked as
-- workSheetReader does where it reads it, is on a well-formed grid again. It shows each cell that has
-- a style, a value, a formula or a type as before, at the same coordinates, and no other.
pub check-trimmed :
    (x : Worksheet)
    → IsGrid x
    → (y : Worksheet) × (check_row (check_sheet (trimmed x)) ≡ ok y)
      × IsGrid y
      × ((i j : ℕ)
          → suc i ≤ max_int
          → suc j ≤ max_int
          → view y i j
            ≡ (if is_kept (view x i j) then view x i j else blank_cell (cell_name (suc j) (suc i))))
unfolding check_row
check-trimmed x g =
    let (ys, done, is, sees) = check_rows-view 0 x.rows g in
    (
      record (trimmed x) { rows = ys },
      ap check_row (check_sheet-numbered (trimmed x) (trim_rows-AreNumbered 0 x.rows g))
          ∙ ap (λ r. r >>= λ rows. ok (record (trimmed x) { rows = rows })) done,
      is,
      λ i j bi bj.
          let q : 0 + i ≡ i = omega arith in
          sees i j bj (omega arith) ∙ ap (λ m. saved (suc m) j (view x i j)) q,
    )
