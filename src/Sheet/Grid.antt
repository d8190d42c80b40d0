-- ===== src/Sheet/Grid.antt =====
-- The well-formed grid: row i has the number i + 1, and its cell j the name of column j + 1.
use mathlib.Core.Path.{subst}
use mathlib.Core.Option.{some-injective}
use excelize.Common.{
  ℕ, zero, suc, ◌+◌, ◌-◌, ◌≤◌, ◌<◌, ◌≡◌, refl, sym, ap, some, List, [], ◌∷◌, ◌++◌, arith, length,
  get_elem?, set, length-append,
}
use excelize.Common.Int.{ℤ, max_int, pos}
use excelize.Ref.Cell.{name_or}
use excelize.Ref.Cell.RoundTrip.{cell_name, coordinates_to_cell_name-pos}
use excelize.Sheet.Data.{Cell, Row, Worksheet}
use excelize.Sheet.Prepare.{new_cells, fill_columns, new_rows, grown_rows}

abbrev pub IsCells : ℕ → ℕ → List Cell → Type 0
IsCells row j [] = Unit
IsCells row j (x ∷ xs) = (suc j ≤ max_int) × (x.r ≡ cell_name (suc j) row) × IsCells row (suc j) xs

abbrev pub IsRows : ℕ → List Row → Type 0
IsRows i [] = Unit
IsRows i (d ∷ ds) =
    (suc i ≤ max_int) × (d.r ≡ pos (suc i)) × IsCells (suc i) 0 d.c × IsRows (suc i) ds

abbrev pub IsGrid : Worksheet → Type 0
IsGrid xlsx = IsRows 0 xlsx.rows

new_cells-IsCells :
    (rounds j row : ℕ)
    → 0 < row
    → (0 < rounds → j + rounds ≤ max_int)
    → IsCells row j (new_cells rounds j (pos row))
unfolding new_cells name_or
new_cells-IsCells zero j row h le = tt
new_cells-IsCells (suc rounds) j row h le = (
  omega (arith, le (omega arith)),
  ground (arith, coordinates_to_cell_name-pos (suc j) row (omega arith) h),
  new_cells-IsCells rounds (suc j) row h (λ _. omega (arith, le (omega arith))),
)

append-IsCells :
    (row j : ℕ) (xs ys : List Cell)
    → IsCells row j xs
    → IsCells row (j + length xs) ys
    → IsCells row j (xs ++ ys)
append-IsCells row j [] ys hx hy = let e : j + 0 ≡ j = omega arith in rw e at hy
append-IsCells row j (x ∷ xs) ys (b, e, hx) hy =
    let q : j + suc (length xs) ≡ suc j + length xs = omega arith in
    (b, e, append-IsCells row (suc j) xs ys hx (rw q at hy))

pub fill_columns-IsCells :
    (d : Row) (col row : ℕ)
    → 0 < row
    → col ≤ max_int
    → IsCells row 0 d.c
    → IsCells row 0 (fill_columns d (pos col) (pos row)).c
unfolding fill_columns
fill_columns-IsCells d col row h le g =
    let q : 0 + length d.c ≡ length d.c = omega arith in
    append-IsCells row 0 d.c _ g (
      subst (λ k. IsCells row k (new_cells (col - length d.c) (length d.c) (pos row))) (sym q)
        (new_cells-IsCells (col - length d.c) (length d.c) row h (λ p. omega arith)))

new_rows-IsRows :
    (rounds i : ℕ) → (0 < rounds → i + rounds ≤ max_int) → IsRows i (new_rows rounds i)
unfolding new_rows
new_rows-IsRows zero i h = tt
new_rows-IsRows (suc rounds) i h = (
  omega (arith, h (omega arith)),
  refl,
  tt,
  new_rows-IsRows rounds (suc i) (λ _. omega (arith, h (omega arith))),
)

append-IsRows :
    (i : ℕ) (xs ys : List Row) → IsRows i xs → IsRows (i + length xs) ys → IsRows i (xs ++ ys)
append-IsRows i [] ys hx hy = let e : i + 0 ≡ i = omega arith in rw e at hy
append-IsRows i (x ∷ xs) ys (b, e, c, hx) hy =
    let q : i + suc (length xs) ≡ suc i + length xs = omega arith in
    (b, e, c, append-IsRows (suc i) xs ys hx (rw q at hy))

pub grown_rows-IsRows :
    (rows : List Row) (row : ℕ)
    → row ≤ max_int
    → IsRows 0 rows
    → IsRows 0 (grown_rows rows (pos row))
grown_rows-IsRows rows row le g =
    let q : 0 + length rows ≡ length rows = omega arith in
    append-IsRows 0 rows _ g (
      subst (λ k. IsRows k (new_rows (row - length rows) (length rows))) (sym q)
        (new_rows-IsRows (row - length rows) (length rows) (λ p. omega arith)))

pub length-new_cells : (rounds j : ℕ) (row : ℤ) → length (new_cells rounds j row) ≡ rounds
unfolding new_cells
length-new_cells zero j row = refl
length-new_cells (suc rounds) j row = ap suc (length-new_cells rounds (suc j) row)

pub length-new_rows : (rounds i : ℕ) → length (new_rows rounds i) ≡ rounds
unfolding new_rows
length-new_rows zero i = refl
length-new_rows (suc rounds) i = ap suc (length-new_rows rounds (suc i))

pub length-grown_rows : (rows : List Row) (row : ℕ) → row ≤ length (grown_rows rows (pos row))
length-grown_rows rows row = omega (
  arith,
  length-append rows (new_rows (row - length rows) (length rows)),
  length-new_rows (row - length rows) (length rows),
)

pub length-fill_columns :
    (d : Row) (col : ℕ) (row : ℤ) → col ≤ length (fill_columns d (pos col) row).c
unfolding fill_columns
length-fill_columns d col row = omega (
  arith,
  length-append d.c (new_cells (col - length d.c) (length d.c) row),
  length-new_cells (col - length d.c) (length d.c) row,
)

pub IsRows-at :
    (k : ℕ) (rows : List Row) (i : ℕ) (d : Row)
    → IsRows k rows
    → get_elem? rows i ≡ some d
    → (suc (k + i) ≤ max_int) × (d.r ≡ pos (suc (k + i))) × IsCells (suc (k + i)) 0 d.c
IsRows-at k [] i d g e = absurd (cc)
IsRows-at k (x ∷ xs) zero d (b, er, hc, g) e =
    let q : k + 0 ≡ k = omega arith in
    subst
      (λ (y : Row).
        (suc (k + 0) ≤ max_int) × (y.r ≡ pos (suc (k + 0))) × IsCells (suc (k + 0)) 0 y.c)
      (some-injective _ _ e) (rw q (b, er, hc))
IsRows-at k (x ∷ xs) (suc i) d (b, er, hc, g) e =
    let q : suc k + i ≡ k + suc i = omega arith in
    subst (λ n. (suc n ≤ max_int) × (d.r ≡ pos (suc n)) × IsCells (suc n) 0 d.c) q
      (IsRows-at (suc k) xs i d g e)

pub set-IsRows :
    (k : ℕ) (rows : List Row) (i : ℕ) (d : Row)
    → IsRows k rows
    → d.r ≡ pos (suc (k + i))
    → IsCells (suc (k + i)) 0 d.c
    → IsRows k (set rows i d)
set-IsRows k [] i d g er hc = tt
set-IsRows k (x ∷ xs) zero d (b, _, _, g) er hc =
    let q : k + 0 ≡ k = omega arith in (b, rw q at er, rw q at hc, g)
set-IsRows k (x ∷ xs) (suc i) d (b, e, c, g) er hc =
    let q : k + suc i ≡ suc k + i = omega arith in
    (b, e, c, set-IsRows (suc k) xs i d g (rw q at er) (rw q at hc))

pub IsCells-at :
    (row k : ℕ) (xs : List Cell) (j : ℕ) (x : Cell)
    → IsCells row k xs
    → get_elem? xs j ≡ some x
    → x.r ≡ cell_name (suc (k + j)) row
IsCells-at row k [] j x g e = absurd (cc)
IsCells-at row k (y ∷ ys) zero x (b, en, g) e =
    let q : k + 0 ≡ k = omega arith in
    subst (λ (z : Cell). z.r ≡ cell_name (suc (k + 0)) row) (some-injective _ _ e) (rw q en)
IsCells-at row k (y ∷ ys) (suc j) x (b, en, g) e =
    let q : k + suc j ≡ suc k + j = omega arith in rw q (IsCells-at row (suc k) ys j x g e)

pub set-IsCells :
    (row k : ℕ) (xs : List Cell) (j : ℕ) (x : Cell)
    → IsCells row k xs
    → x.r ≡ cell_name (suc (k + j)) row
    → IsCells row k (set xs j x)
set-IsCells row k [] j x g e = tt
set-IsCells row k (y ∷ ys) zero x (b, _, g) e = let q : k + 0 ≡ k = omega arith in (b, rw q at e, g)
set-IsCells row k (y ∷ ys) (suc j) x (b, en, g) e =
    let q : k + suc j ≡ suc k + j = omega arith in
    (b, en, set-IsCells row (suc k) ys j x g (rw q at e))
