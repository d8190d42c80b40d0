-- ===== src/Saved/Numbered.antt =====
-- checkRow on one row: the last column, the blank cells, and a row without gaps.
use mathlib.Core.Path.{subst}
use excelize.Adjust.Check.{blank_cells, fill_row, check_cells}
use excelize.Common.{
  ℕ, zero, suc, ◌+◌, ◌≤◌, ◌<◌, ◌≡◌, refl, sym, ap, ◌∙◌, inl, inr, true, false, some, List, [], ◌∷◌,
  arith, ltb, if◌then◌else◌, ltb→lt, ltb-false→le, Bool-cases, length, get_last?, get_elem?-ge,
  str_eq, str_eq_refl, ok,
}
use excelize.Common.Int.{max_int, ltb_ℤ, pos}
use excelize.Ref.Cell.{cell_name_to_coordinates}
use excelize.Ref.Cell.RoundTrip.{
  cell_name, coordinates_to_cell_name-pos, cell_name_to_coordinates-cell_name,
}
use excelize.Saved.Scatter.{IsAscending, named_or, cell_name-ne, scatter-view}
use excelize.Sheet.Data.{Cell, blank_cell}
use excelize.Sheet.Grid.{IsCells}
use excelize.Sheet.View.{cells_view, cells_view_blank}

-- A row without gaps sees its cells by their names.
pub cells_view-named :
    (row k : ℕ) (xs : List Cell) (i : ℕ)
    → 0 < row
    → row ≤ max_int
    → suc (k + i) ≤ max_int
    → IsCells row k xs
    → cells_view row k xs i
      ≡ named_or (blank_cell (cell_name (suc (k + i)) row)) (cell_name (suc (k + i)) row) xs
cells_view-named row k [] i h l b g = refl
cells_view-named row k (x ∷ xs) zero h l b (b', e, g) =
    let q : k + 0 ≡ k = omega arith in
    let self : str_eq x.r (cell_name (suc (k + 0)) row) ≡ true =
      ap (λ s. str_eq s (cell_name (suc (k + 0)) row)) (e ∙ ap (λ m. cell_name (suc m) row) (sym q))
      ∙ str_eq_refl (cell_name (suc (k + 0)) row) in
    rw self refl
cells_view-named row k (x ∷ xs) (suc i) h l b (b', e, g) =
    let q : k + suc i ≡ suc k + i = omega arith in
    let other : str_eq x.r (cell_name (suc (k + suc i)) row) ≡ false =
      ap (λ s. str_eq s (cell_name (suc (k + suc i)) row)) e
      ∙ cell_name-ne row k (k + suc i) h l b' b (λ z. omega (arith, z)) in
    cells_view-named row (suc k) xs i h l (omega arith) g
    ∙ ap (λ m. named_or (blank_cell (cell_name (suc m) row)) (cell_name (suc m) row) xs) (sym q)
    ∙ ap
        (λ t.
          if t
          then x
          else named_or (blank_cell (cell_name (suc (k + suc i)) row))
              (cell_name (suc (k + suc i)) row) xs)
        (sym other)

named_or-after :
    (row n j i : ℕ) (xs : List Cell) (other : Cell)
    → 0 < row
    → row ≤ max_int
    → n ≤ i
    → suc i ≤ max_int
    → IsAscending row n j xs
    → named_or other (cell_name (suc i) row) xs ≡ other
named_or-after row n j i [] other h l le b a = refl
named_or-after row n j i (x ∷ xs) other h l le b (c, lc, lt, e, a) =
    let ne : str_eq x.r (cell_name (suc i) row) ≡ false =
      ap (λ s. str_eq s (cell_name (suc i) row)) e
      ∙ cell_name-ne row c i h l (omega arith) b (λ q. omega (arith, q)) in
    rw ne (named_or-after row n (suc c) i xs other h l le b a)

-- The cell of a column, by its name.
abbrev pub named : ℕ → List Cell → ℕ → Cell
named row xs i = named_or (blank_cell (cell_name (suc i) row)) (cell_name (suc i) row) xs

pub row_view-named :
    (row : ℕ) (xs : List Cell) (i : ℕ)
    → 0 < row
    → row ≤ max_int
    → suc i ≤ max_int
    → IsCells row 0 xs
    → cells_view row 0 xs i ≡ named row xs i
row_view-named row xs i h l b g =
    let q : 0 + i ≡ i = omega arith in
    cells_view-named row 0 xs i h l (omega arith) g ∙ ap (named row xs) q

length-IsAscending :
    (row n j : ℕ) (xs : List Cell) → j ≤ n → IsAscending row n j xs → j + length xs ≤ n
length-IsAscending row n j [] le a = omega (arith, le)
length-IsAscending row n j (x ∷ xs) le (c, lc, lt, e, a) =
    let rest = length-IsAscending row n (suc c) xs lt a in omega (arith, rest, lc)

-- As many cells as columns leave no gap.
full-IsCells :
    (row n j : ℕ) (xs : List Cell)
    → n ≤ max_int
    → IsAscending row n j xs
    → n ≤ j + length xs
    → IsCells row j xs
full-IsCells row n j [] ln a le = tt
full-IsCells row n j (x ∷ xs) ln (c, lc, lt, e, a) le =
    let rest = length-IsAscending row n (suc c) xs lt a in
    let same : c ≡ j = omega (arith, rest, lc, le) in
    (
      omega (arith, rest, lc, le, lt, ln),
      e ∙ ap (λ m. cell_name (suc m) row) same,
      full-IsCells row n (suc j) xs ln (subst (λ m. IsAscending row n (suc m) xs) same a)
          (omega arith),
    )

-- The last cell has the last column.
last-IsAscending :
    (row n j : ℕ) (x : Cell) (xs : List Cell)
    → IsAscending row n j (x ∷ xs)
    → (c : ℕ) × (z : Cell) × (get_last? (x ∷ xs) ≡ some z)
      × (z.r ≡ cell_name (suc c) row)
      × (c < n)
      × (j + length xs ≤ c)
      × IsAscending row (suc c) j (x ∷ xs)
last-IsAscending row n j x [] (c, lc, lt, e, a) =
    (c, x, refl, e, lt, omega arith, (c, lc, omega arith, e, tt))
last-IsAscending row n j x (y ∷ ys) (c, lc, lt, e, a) =
    let (c', z, last, e', lt', le, a') = last-IsAscending row n (suc c) y ys a in
    (c', z, last, e', lt', omega arith, (c, lc, omega arith, e, a'))

blank_cells-IsCells :
    (rounds k row : ℕ)
    → 0 < row
    → k + rounds ≤ max_int
    → (cells : List Cell) × (blank_cells rounds k (pos row) ≡ ok cells)
      × IsCells row k cells
      × (length cells ≡ rounds)
      × ((i : ℕ) → cells_view row k cells i ≡ blank_cell (cell_name (suc (k + i)) row))
unfolding blank_cells
blank_cells-IsCells zero k row h le = ([], refl, tt, refl, λ i. refl)
blank_cells-IsCells (suc rounds) k row h le =
    let (cells, done, is, len, sees) = blank_cells-IsCells rounds (suc k) row h (omega arith) in
    (
      blank_cell (cell_name (suc k) row) ∷ cells,
      rw (coordinates_to_cell_name-pos (suc k) row (omega arith) h, done) refl,
      (omega arith, refl, is),
      ap suc len,
      λ i. by_index cells i sees,
    )
  where
    by_index :
        (cells : List Cell) (i : ℕ)
        → ((i : ℕ) → cells_view row (suc k) cells i ≡ blank_cell (cell_name (suc (suc k + i)) row))
        → cells_view row k (blank_cell (cell_name (suc k) row) ∷ cells) i
          ≡ blank_cell (cell_name (suc (k + i)) row)
    by_index cells zero sees = ap (λ m. blank_cell (cell_name (suc m) row)) (omega arith)
    by_index cells (suc i) sees =
        sees i ∙ ap (λ m. blank_cell (cell_name (suc m) row)) (omega arith)

fill_row-view :
    (row c : ℕ) (x : Cell) (xs : List Cell)
    → 0 < row
    → row ≤ max_int
    → suc c ≤ max_int
    → IsAscending row (suc c) 0 (x ∷ xs)
    → (dense : List Cell) × (fill_row (pos (suc c)) (pos row) (x ∷ xs) ≡ ok (dense, true))
      × IsCells row 0 dense
      × ((i : ℕ) → suc i ≤ max_int → cells_view row 0 dense i ≡ named row (x ∷ xs) i)
unfolding fill_row
fill_row-view row c x xs h l hc a =
    elim (Bool-cases (ltb_ℤ (pos (length (x ∷ xs))) (pos (suc c)))) [
      | inl gap ↦
          let (cells, made, is, len, blank) = blank_cells-IsCells (suc c) 0 row h (omega arith) in
          let (dense, done, is', len', sees) =
            scatter-view row (suc c) 0 (x ∷ xs) cells h l hc len a is in
          (
            dense,
            rw (fill_row, gap, made, done) refl,
            is',
            λ i b. in_or_out i b dense cells len' blank sees,
          )
      | inr full ↦
          let is = full-IsCells row (suc c) 0 (x ∷ xs) hc a (ground (arith, full)) in
          (x ∷ xs, rw (fill_row, full) refl, is, λ i b. row_view-named row (x ∷ xs) i h l b is)
    ]
  where
    in_or_out :
        (i : ℕ)
        → suc i ≤ max_int
        → (dense cells : List Cell) → length dense ≡ suc c
        → ((i : ℕ) → cells_view row 0 cells i ≡ blank_cell (cell_name (suc (0 + i)) row))
        → ((i : ℕ)
            → i < suc c
            → cells_view row 0 dense i
              ≡ named_or (cells_view row 0 cells i) (cell_name (suc i) row) (x ∷ xs))
        → cells_view row 0 dense i ≡ named row (x ∷ xs) i
    in_or_out i b dense cells len blank sees = elim (Bool-cases (ltb i (suc c))) [
      | inl inside ↦
          let q : 0 + i ≡ i = omega arith in
          sees i (ltb→lt i (suc c) inside)
          ∙ ap (λ y. named_or y (cell_name (suc i) row) (x ∷ xs))
              (blank i ∙ ap (λ m. blank_cell (cell_name (suc m) row)) q)
      | inr outside ↦
          let q : 0 + i ≡ i = omega arith in
          let le = ltb-false→le i (suc c) outside in
          cells_view_blank row 0 dense i (get_elem?-ge dense i (omega (arith, len, le)))
          ∙ ap (λ m. blank_cell (cell_name (suc m) row)) q
          ∙ sym (
              named_or-after row (suc c) 0 i (x ∷ xs) (blank_cell (cell_name (suc i) row)) h l le b
                a)
    ]

-- checkRow on a row of cells in the order of their columns: the cells stand at their columns, and
-- what is missing is blank.
pub check_cells-view :
    (row : ℕ) (xs : List Cell)
    → 0 < row
    → row ≤ max_int
    → IsAscending row max_int 0 xs
    → (dense : List Cell) × (check_cells (pos row) xs ≡ ok (dense, true))
      × IsCells row 0 dense
      × ((i : ℕ) → suc i ≤ max_int → cells_view row 0 dense i ≡ named row xs i)
unfolding check_cells fill_row
check_cells-view row [] h l a = ([], refl, tt, λ i b. row_view-named row [] i h l b tt)
check_cells-view row (x ∷ xs) h l a =
    let (c, z, last, e, lt, le, a') = last-IsAscending row max_int 0 x xs a in
    let at : cell_name_to_coordinates z.r ≡ ok (pos (suc c), pos row) =
      ap cell_name_to_coordinates e
      ∙ cell_name_to_coordinates-cell_name (suc c) row (omega arith) (omega arith) h l in
    let opens : check_cells (pos row) (x ∷ xs) ≡ fill_row (pos (suc c)) (pos row) (x ∷ xs) =
      rw (check_cells, last, at) refl in
    let (dense, done, is, sees) = fill_row-view row c x xs h l (omega arith) a' in
    (dense, opens ∙ done, is, sees)
