-- ===== src/Sheet/View.antt =====
-- The abstract sheet: a total function from coordinates to cells, where what is not stored is blank.
-- The cell j of a row, `k` cells of which have gone before.
use mathlib.Core.Option.{some-injective}
use excelize.Common.{
  ℕ, zero, suc, ◌+◌, ◌-◌, ◌<◌, ◌≡◌, refl, sym, ap, ◌∙◌, ◌≢◌, none, some, List, [], ◌∷◌, ◌++◌, arith,
  length, get_elem?, set, get_elem?-set_self,
}
use excelize.Common.Int.{pos}
use excelize.Ref.Cell.{name_or}
use excelize.Ref.Cell.RoundTrip.{cell_name, coordinates_to_cell_name-pos}
use excelize.Sheet.Data.{Cell, Row, Worksheet, blank_cell}
use excelize.Sheet.Prepare.{new_cells, fill_columns, new_rows, grown_rows}

abbrev pub cells_view : ℕ → ℕ → List Cell → ℕ → Cell
cells_view row k [] j = blank_cell (cell_name (suc (k + j)) row)
cells_view row k (x ∷ xs) zero = x
cells_view row k (x ∷ xs) (suc j) = cells_view row (suc k) xs j

abbrev pub rows_view : ℕ → List Row → ℕ → ℕ → Cell
rows_view k [] i j = blank_cell (cell_name (suc j) (suc (k + i)))
rows_view k (d ∷ ds) zero j = cells_view (suc k) 0 d.c j
rows_view k (d ∷ ds) (suc i) j = rows_view (suc k) ds i j

-- The cell at column j + 1 and row i + 1.
abbrev pub view : Worksheet → ℕ → ℕ → Cell
view xlsx i j = rows_view 0 xlsx.rows i j

-- What is stored keeps its place in the view when blank cells or rows are appended.
cells_view-new_cells :
    (row k n j : ℕ)
    → 0 < row
    → cells_view row k (new_cells n k (pos row)) j ≡ blank_cell (cell_name (suc (k + j)) row)
unfolding new_cells name_or
cells_view-new_cells row k zero j h = refl
cells_view-new_cells row k (suc n) zero h =
    let q : k + 0 ≡ k = omega arith in
    rw q (ground (arith, coordinates_to_cell_name-pos (suc k) row (omega arith) h))
cells_view-new_cells row k (suc n) (suc j) h =
    let q : k + suc j ≡ suc k + j = omega arith in rw q (cells_view-new_cells row (suc k) n j h)

cells_view-append :
    (row k n j : ℕ) (xs : List Cell)
    → 0 < row
    → cells_view row k (xs ++ new_cells n (k + length xs) (pos row)) j ≡ cells_view row k xs j
cells_view-append row k n j [] h =
    let q : k + 0 ≡ k = omega arith in rw q (cells_view-new_cells row k n j h)
cells_view-append row k n zero (x ∷ xs) h = refl
cells_view-append row k n (suc j) (x ∷ xs) h =
    let q : k + suc (length xs) ≡ suc k + length xs = omega arith in
    rw q (cells_view-append row (suc k) n j xs h)

pub cells_view-fill_columns :
    (row col j : ℕ) (d : Row)
    → 0 < row
    → cells_view row 0 (fill_columns d (pos col) (pos row)).c j ≡ cells_view row 0 d.c j
unfolding fill_columns
cells_view-fill_columns row col j d h =
    let q : 0 + length d.c ≡ length d.c = omega arith in
    ap (λ k. cells_view row 0 (d.c ++ new_cells (col - length d.c) k (pos row)) j) (sym q)
    ∙ cells_view-append row 0 (col - length d.c) j d.c h

rows_view-new_rows :
    (k n i j : ℕ) → rows_view k (new_rows n k) i j ≡ blank_cell (cell_name (suc j) (suc (k + i)))
unfolding new_rows
rows_view-new_rows k zero i j = refl
rows_view-new_rows k (suc n) zero j =
    let q : k + 0 ≡ k = omega arith in let z : 0 + j ≡ j = omega arith in rw (q, z)
rows_view-new_rows k (suc n) (suc i) j =
    let q : k + suc i ≡ suc k + i = omega arith in rw q (rows_view-new_rows (suc k) n i j)

rows_view-append :
    (k n i j : ℕ) (rows : List Row)
    → rows_view k (rows ++ new_rows n (k + length rows)) i j ≡ rows_view k rows i j
rows_view-append k n i j [] = let q : k + 0 ≡ k = omega arith in rw q (rows_view-new_rows k n i j)
rows_view-append k n zero j (d ∷ ds) = refl
rows_view-append k n (suc i) j (d ∷ ds) =
    let q : k + suc (length ds) ≡ suc k + length ds = omega arith in
    rw q (rows_view-append (suc k) n i j ds)

pub rows_view-grown_rows :
    (rows : List Row) (row i j : ℕ)
    → rows_view 0 (grown_rows rows (pos row)) i j ≡ rows_view 0 rows i j
rows_view-grown_rows rows row i j =
    let q : 0 + length rows ≡ length rows = omega arith in
    ap (λ k. rows_view 0 (rows ++ new_rows (row - length rows) k) i j) (sym q)
    ∙ rows_view-append 0 (row - length rows) i j rows

-- A row that is replaced changes the view of that row alone.
pub rows_view-at :
    (k : ℕ) (rows : List Row) (i j : ℕ) (d : Row)
    → get_elem? rows i ≡ some d
    → rows_view k rows i j ≡ cells_view (suc (k + i)) 0 d.c j
rows_view-at k [] i j d e = absurd (cc)
rows_view-at k (x ∷ xs) zero j d e =
    let q : k + 0 ≡ k = omega arith in
    rw q (ap (λ (y : Row). cells_view (suc k) 0 y.c j) (some-injective _ _ e))
rows_view-at k (x ∷ xs) (suc i) j d e =
    let q : k + suc i ≡ suc k + i = omega arith in rw q (rows_view-at (suc k) xs i j d e)

pub rows_view-set_ne :
    (k : ℕ) (rows : List Row) (i i' j : ℕ) (d : Row)
    → i ≢ i'
    → rows_view k (set rows i d) i' j ≡ rows_view k rows i' j
rows_view-set_ne k [] i i' j d h = refl
rows_view-set_ne k (x ∷ xs) zero zero j d h = absurd (h refl)
rows_view-set_ne k (x ∷ xs) zero (suc i') j d h = refl
rows_view-set_ne k (x ∷ xs) (suc i) zero j d h = refl
rows_view-set_ne k (x ∷ xs) (suc i) (suc i') j d h =
    rows_view-set_ne (suc k) xs i i' j d (λ e. h (ap suc e))

pub rows_view-set_self :
    (k : ℕ) (rows : List Row) (i j : ℕ) (d : Row)
    → i < length rows
    → rows_view k (set rows i d) i j ≡ cells_view (suc (k + i)) 0 d.c j
rows_view-set_self k rows i j d h =
    rows_view-at k (set rows i d) i j d (get_elem?-set_self rows i d h)

pub cells_view-at :
    (row k : ℕ) (xs : List Cell) (j : ℕ) (x : Cell)
    → get_elem? xs j ≡ some x
    → cells_view row k xs j ≡ x
cells_view-at row k [] j x e = absurd (cc)
cells_view-at row k (y ∷ ys) zero x e = some-injective _ _ e
cells_view-at row k (y ∷ ys) (suc j) x e = cells_view-at row (suc k) ys j x e

pub cells_view-set_ne :
    (row k : ℕ) (xs : List Cell) (j j' : ℕ) (x : Cell)
    → j ≢ j'
    → cells_view row k (set xs j x) j' ≡ cells_view row k xs j'
cells_view-set_ne row k [] j j' x h = refl
cells_view-set_ne row k (y ∷ ys) zero zero x h = absurd (h refl)
cells_view-set_ne row k (y ∷ ys) zero (suc j') x h = refl
cells_view-set_ne row k (y ∷ ys) (suc j) zero x h = refl
cells_view-set_ne row k (y ∷ ys) (suc j) (suc j') x h =
    cells_view-set_ne row (suc k) ys j j' x (λ e. h (ap suc e))

pub cells_view_blank :
    (row k : ℕ) (xs : List Cell) (j : ℕ)
    → get_elem? xs j ≡ none
    → cells_view row k xs j ≡ blank_cell (cell_name (suc (k + j)) row)
cells_view_blank row k [] j e = refl
cells_view_blank row k (y ∷ ys) zero e = absurd (cc)
cells_view_blank row k (y ∷ ys) (suc j) e =
    let q : k + suc j ≡ suc k + j = omega arith in rw q (cells_view_blank row (suc k) ys j e)

pub rows_view_blank :
    (k : ℕ) (rows : List Row) (i j : ℕ)
    → get_elem? rows i ≡ none
    → rows_view k rows i j ≡ blank_cell (cell_name (suc j) (suc (k + i)))
rows_view_blank k [] i j e = refl
rows_view_blank k (d ∷ ds) zero j e = absurd (cc)
rows_view_blank k (d ∷ ds) (suc i) j e =
    let q : k + suc i ≡ suc k + i = omega arith in rw q (rows_view_blank (suc k) ds i j e)
