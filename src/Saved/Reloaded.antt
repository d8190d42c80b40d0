-- ===== src/Saved/Reloaded.antt =====
-- What a worksheet shows that is saved, and then read again by another File.
use excelize.Adjust.Check.{check_rows}
use excelize.Common.{
  ℕ, zero, suc, ◌+◌, ◌≤◌, ◌<◌, ◌≡◌, refl, sym, ap, ◌∙◌, Bool, true, false, List, [], ◌∷◌, arith,
  if◌then◌else◌, Bytes, str_eq, str_eq_refl, ok,
}
use excelize.Common.Int.{max_int}
use excelize.Ref.Cell.RoundTrip.{cell_name}
use excelize.Saved.{is_kept, trim_cell, trim_rows}
use excelize.Saved.Numbered.{named, check_cells-view}
use excelize.Saved.Scatter.{IsAscending, named_or, cell_name-ne, named_or-beyond}
use excelize.Sheet.Data.{Cell, Row, blank_cell}
use excelize.Sheet.Grid.{IsCells, IsRows}
use excelize.Sheet.View.{cells_view, rows_view}

-- What is left of a cell: without a style, a value, a formula and a type it is blank.
abbrev pub saved : ℕ → ℕ → Cell → Cell
saved row i x = if is_kept x then x else blank_cell (cell_name (suc i) row)

saved_blank :
    (row i : ℕ) (name : Bytes) → saved row i (blank_cell name) ≡ blank_cell (cell_name (suc i) row)
unfolding is_kept str_eq
saved_blank row i name = refl

IsAscending-weaken :
    (row n j k : ℕ) (xs : List Cell) → j ≤ k → IsAscending row n k xs → IsAscending row n j xs
IsAscending-weaken row n j k [] le a = tt
IsAscending-weaken row n j k (x ∷ xs) le (c, lc, lt, e, a) = (c, omega (arith, le, lc), lt, e, a)

trim_cell-IsAscending :
    (row k : ℕ) (xs : List Cell) → IsCells row k xs → IsAscending row max_int k (trim_cell xs)
unfolding trim_cell
trim_cell-IsAscending row k [] g = tt
trim_cell-IsAscending row k (x ∷ xs) (b, e, g) =
    by_test (is_kept x) (trim_cell-IsAscending row (suc k) xs g)
  where
    by_test :
        (t : Bool)
        → IsAscending row max_int (suc k) (trim_cell xs)
        → IsAscending row max_int k (if t then x ∷ trim_cell xs else trim_cell xs)
    by_test true a = (k, omega arith, b, e, a)
    by_test false a = IsAscending-weaken row max_int k (suc k) (trim_cell xs) (omega arith) a

trim_cell-named :
    (row k i : ℕ) (xs : List Cell)
    → 0 < row
    → row ≤ max_int
    → suc (k + i) ≤ max_int
    → IsCells row k xs
    → named row (trim_cell xs) (k + i) ≡ saved row (k + i) (cells_view row k xs i)
unfolding trim_cell
trim_cell-named row k i [] h l b g = sym (saved_blank row (k + i) (cell_name (suc (k + i)) row))
trim_cell-named row k zero (x ∷ xs) h l b (b', e, g) = by_test (is_kept x)
  where
    by_test :
        (t : Bool)
        → named row (if t then x ∷ trim_cell xs else trim_cell xs) (k + 0)
          ≡ (if t then x else blank_cell (cell_name (suc (k + 0)) row))
    by_test true =
        let self : str_eq x.r (cell_name (suc (k + 0)) row) ≡ true =
          ap (λ s. str_eq s (cell_name (suc (k + 0)) row))
            (e ∙ ap (λ m. cell_name (suc m) row) (omega arith))
          ∙ str_eq_refl (cell_name (suc (k + 0)) row) in
        ap
          (λ u.
            if u
            then x
            else named_or (blank_cell (cell_name (suc (k + 0)) row)) (cell_name (suc (k + 0)) row)
                (trim_cell xs))
          self
    by_test false =
        named_or-beyond row max_int (k + 0) (suc k) (trim_cell xs)
          (blank_cell (cell_name (suc (k + 0)) row)) h l (omega arith) (omega arith)
          (trim_cell-IsAscending row (suc k) xs g)
trim_cell-named row k (suc i) (x ∷ xs) h l b (b', e, g) =
    let q : k + suc i ≡ suc k + i = omega arith in
    by_test (is_kept x) (
      ap (named row (trim_cell xs)) q
      ∙ trim_cell-named row (suc k) i xs h l (omega arith) g
      ∙ ap (λ m. saved row m (cells_view row (suc k) xs i)) (sym q))
  where
    by_test :
        (t : Bool)
        → named row (trim_cell xs) (k + suc i) ≡ saved row (k + suc i) (cells_view row (suc k) xs i)
        → named row (if t then x ∷ trim_cell xs else trim_cell xs) (k + suc i)
          ≡ saved row (k + suc i) (cells_view row (suc k) xs i)
    by_test true ih =
        let other : str_eq x.r (cell_name (suc (k + suc i)) row) ≡ false =
          ap (λ s. str_eq s (cell_name (suc (k + suc i)) row)) e
          ∙ cell_name-ne row k (k + suc i) h l b' b (λ z. omega (arith, z)) in
        ap (λ u. if u then x else named row (trim_cell xs) (k + suc i)) other ∙ ih
    by_test false ih = ih

pub check_rows-view :
    (k : ℕ) (ds : List Row)
    → IsRows k ds
    → (ys : List Row) × (check_rows k (trim_rows ds) ≡ ok ys)
      × IsRows k ys
      × ((i j : ℕ)
          → suc j ≤ max_int
          → suc (k + i) ≤ max_int
          → rows_view k ys i j ≡ saved (suc (k + i)) j (rows_view k ds i j))
unfolding check_rows trim_rows
check_rows-view k [] g =
    ([], refl, tt, λ i j b b'. sym (saved_blank (suc (k + i)) j (cell_name (suc j) (suc (k + i)))))
check_rows-view k (d ∷ ds) (b, e, cells, g) =
    let (ys, done, is, sees) = check_rows-view (suc k) ds g in
    let (dense, checked, is', sees') =
      check_cells-view (suc k) (trim_cell d.c) (omega arith) b
        (trim_cell-IsAscending (suc k) 0 d.c cells) in
    (
      record d { c = dense } ∷ ys,
      rw (checked, done) refl,
      (b, e, is', is),
      λ i j. by_index ys dense sees sees' i j,
    )
  where
    by_index :
        (ys : List Row) (dense : List Cell)
        → ((i j : ℕ)
            → suc j ≤ max_int
            → suc (suc k + i) ≤ max_int
            → rows_view (suc k) ys i j ≡ saved (suc (suc k + i)) j (rows_view (suc k) ds i j))
        → ((j : ℕ)
            → suc j ≤ max_int
            → cells_view (suc k) 0 dense j ≡ named (suc k) (trim_cell d.c) j)
        → (i j : ℕ) → suc j ≤ max_int
        → suc (k + i) ≤ max_int
        → rows_view k (record d { c = dense } ∷ ys) i j
          ≡ saved (suc (k + i)) j (rows_view k (d ∷ ds) i j)
    by_index ys dense sees sees' zero j bj bi =
        let z : 0 + j ≡ j = omega arith in
        let q : k ≡ k + 0 = omega arith in
        sees' j bj
        ∙ ap (named (suc k) (trim_cell d.c)) (sym z)
        ∙ trim_cell-named (suc k) 0 j d.c (omega arith) b (omega arith) cells
        ∙ ap (λ m. saved (suc k) m (cells_view (suc k) 0 d.c j)) z
        ∙ ap (λ m. saved (suc m) j (cells_view (suc k) 0 d.c j)) q
    by_index ys dense sees sees' (suc i) j bj bi =
        let q : suc k + i ≡ k + suc i = omega arith in
        sees i j bj (omega arith) ∙ ap (λ m. saved (suc m) j (rows_view (suc k) ds i j)) q
