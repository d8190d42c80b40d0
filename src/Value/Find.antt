-- ===== src/Value/Find.antt =====
-- On a well-formed grid the search of getCellStringFunc finds the cell that the coordinates name.
use mathlib.Core.Path.{subst}
use mathlib.Core.Option.{some-injective}
use excelize.Common.{
  ℕ, zero, suc, ◌+◌, ◌≤◌, ◌<◌, ◌≡◌, refl, sym, ap, ◌∙◌, ◌≢◌, inl, inr, Bool, true, false, Option,
  none, some, List, [], ◌∷◌, arith, if◌then◌else◌, Bool-cases, Option-cases, length, get_elem?,
  le_of_get_elem?, Bytes, str_eq, str_eq→eq, str_eq_refl, Result, ◌>>=◌, ok, err, fault,
}
use excelize.Common.Int.{ℤ, max_int, eqb_ℤ, pos}
use excelize.Ref.Cell.RoundTrip.{cell_name, cell_name_injective}
use excelize.Sheet.Data.{Cell, Row, blank_cell}
use excelize.Sheet.Grid.{IsCells, IsRows}
use excelize.Sheet.View.{cells_view, rows_view, cells_view-at, cells_view_blank}
use excelize.Value.{cell_search, row_search}

str_ne : (s t : Bytes) → s ≢ t → str_eq s t ≡ false
str_ne s t h = elim (Bool-cases (str_eq s t)) [
  | inl same ↦ absurd (h (str_eq→eq s t same))
  | inr other ↦ other
]

-- How the loop over the cells goes on after the call of `fn`.
abbrev pub found : Result (Bytes × Bool) → Result (Option Bytes)
found (ok (v, true)) = ok (some v)
found (ok (v, false)) = ok none
found (err e) = err e
found fault = fault

-- What the getter returns for a cell.
abbrev pub read : Result (Bytes × Bool) → Result Bytes
read (ok (v, true)) = ok v
read (ok (v, false)) = ok []
read (err e) = err e
read fault = fault

str_same : (s t : Bytes) → s ≡ t → str_eq s t ≡ true
str_same s t e = subst (λ z. str_eq s z ≡ true) e (str_eq_refl s)

module _ (fn : Cell → Result (Bytes × Bool)) where
  found-search :
      (r : Result (Bytes × Bool)) → (r >>= λ p. if p.1 then ok (some p.0) else ok none) ≡ found r
  found-search (ok (v, true)) = refl
  found-search (ok (v, false)) = refl
  found-search (err e) = refl
  found-search fault = refl

  cells_hit :
      (axis : Bytes) (y : Cell) (ys : List Cell)
      → y.r ≡ axis
      → cell_search fn axis ys ≡ ok none
      → cell_search fn axis (y ∷ ys) ≡ found (fn y)
  unfolding cell_search
  cells_hit axis y ys e rest =
      ap
        (λ b.
          if b
          then (fn y >>= λ p. if p.1 then ok (some p.0) else cell_search fn axis ys)
          else cell_search fn axis ys)
        (str_same axis y.r (sym e))
      ∙ ap (λ z. fn y >>= λ p. if p.1 then ok (some p.0) else z) rest
      ∙ found-search (fn y)

  cells_skip :
      (axis : Bytes) (y : Cell) (ys : List Cell)
      → axis ≢ y.r
      → cell_search fn axis (y ∷ ys) ≡ cell_search fn axis ys
  unfolding cell_search
  cells_skip axis y ys ne =
      ap
        (λ b.
          if b
          then (fn y >>= λ p. if p.1 then ok (some p.0) else cell_search fn axis ys)
          else cell_search fn axis ys)
        (str_ne axis y.r ne)

  rows_hit :
      (axis : Bytes) (row : ℤ) (d : Row) (ds : List Row)
      → eqb_ℤ d.r row ≡ true
      → row_search fn axis row ds ≡ ok []
      → row_search fn axis row (d ∷ ds)
        ≡ (cell_search fn axis d.c >>= λ o. elim o [ some v ↦ ok v | none ↦ ok [] ])
  unfolding row_search
  rows_hit axis row d ds e rest =
      ap
        (λ b.
          if b
          then (cell_search fn axis d.c >>= λ o. elim o [
            | some v ↦ ok v
            | none ↦ row_search fn axis row ds
          ])
          else row_search fn axis row ds)
        e
      ∙ ap (λ z. cell_search fn axis d.c >>= λ o. elim o [ some v ↦ ok v | none ↦ z ]) rest

  rows_skip :
      (axis : Bytes) (row : ℤ) (d : Row) (ds : List Row)
      → eqb_ℤ d.r row ≡ false
      → row_search fn axis row (d ∷ ds) ≡ row_search fn axis row ds
  unfolding row_search
  rows_skip axis row d ds e = rw e

module _ (fn : Cell → Result (Bytes × Bool)) (row : ℕ) (row_pos : 0 < row)
    (row_max : row ≤ max_int) where
  name_ne :
      (c k : ℕ) (x : Bytes)
      → 0 < c
      → c ≤ max_int
      → suc k ≤ max_int
      → c ≢ suc k
      → x ≡ cell_name (suc k) row
      → cell_name c row ≢ x
  name_ne c k x hc lc lk ne ex e =
      ne
        (cell_name_injective c row (suc k) row hc lc row_pos row_max (omega arith) lk row_pos
          row_max (e ∙ ex)).0

  cells_past :
      (k c : ℕ) (xs : List Cell)
      → IsCells row k xs
      → 0 < c
      → c ≤ k
      → cell_search fn (cell_name c row) xs ≡ ok none
  cells_past k c [] g hc le = unfold cell_search in refl
  cells_past k c (x ∷ xs) (b, e, g) hc le =
      cells_skip fn (cell_name c row) x xs (name_ne c k x.r hc (omega arith) b (omega arith) e)
      ∙ cells_past (suc k) c xs g hc (omega arith)

  cells_at :
      (k j c : ℕ) (xs : List Cell) (x : Cell)
      → IsCells row k xs
      → c ≡ suc (k + j)
      → c ≤ max_int
      → get_elem? xs j ≡ some x
      → cell_search fn (cell_name c row) xs ≡ found (fn x)
  cells_at k j c [] x g ec lc e = absurd (cc)
  cells_at k zero c (y ∷ ys) x (b, en, g) ec lc e =
      let same : suc k ≡ c = omega arith in
      cells_hit fn (cell_name c row) y ys (en ∙ ap (λ n. cell_name n row) same)
        (cells_past (suc k) c ys g (omega arith) (omega arith))
      ∙ ap (λ z. found (fn z)) (some-injective _ _ e)
  cells_at k (suc j) c (y ∷ ys) x (b, en, g) ec lc e =
      cells_skip fn (cell_name c row) y ys (name_ne c k y.r (omega arith) lc b (omega arith) en)
      ∙ cells_at (suc k) j c ys x g (omega arith) lc e

  cells_beyond :
      (k j c : ℕ) (xs : List Cell)
      → IsCells row k xs
      → c ≡ suc (k + j)
      → c ≤ max_int
      → length xs ≤ j
      → cell_search fn (cell_name c row) xs ≡ ok none
  cells_beyond k j c [] g ec lc le = unfold cell_search in refl
  cells_beyond k zero c (y ∷ ys) g ec lc le = absurd (omega arith)
  cells_beyond k (suc j) c (y ∷ ys) (b, en, g) ec lc le =
      cells_skip fn (cell_name c row) y ys (name_ne c k y.r (omega arith) lc b (omega arith) en)
      ∙ cells_beyond (suc k) j c ys g (omega arith) lc (omega arith)

  read-found :
      (r : Result (Bytes × Bool))
      → (found r >>= λ o. elim o [ some v ↦ ok v | none ↦ ok [] ]) ≡ read r
  read-found (ok (v, true)) = refl
  read-found (ok (v, false)) = refl
  read-found (err e) = refl
  read-found fault = refl

  -- `fn` reads nothing from a cell that was never written.
  module _ (blank_reads : (name : Bytes) → read (fn (blank_cell name)) ≡ ok []) where
    cells_read :
        (j : ℕ) (xs : List Cell)
        → IsCells row 0 xs
        → suc j ≤ max_int
        → (cell_search fn (cell_name (suc j) row) xs >>= λ o. elim o [
          | some v ↦ ok v
          | none ↦ ok []
        ])
          ≡ read (fn (cells_view row 0 xs j))
    cells_read j xs g lc = elim (Option-cases (get_elem? xs j)) [
      | inl e ↦
          ap (λ r. r >>= λ o. elim o [ some v ↦ ok v | none ↦ ok [] ])
            (cells_beyond 0 j (suc j) xs g (omega arith) lc (le_of_get_elem? xs j e))
          ∙ sym (blank_reads _)
          ∙ ap (λ z. read (fn z)) (sym (cells_view_blank row 0 xs j e))
      | inr (x, e) ↦
          ap (λ r. r >>= λ o. elim o [ some v ↦ ok v | none ↦ ok [] ])
            (cells_at 0 j (suc j) xs x g (omega arith) lc e)
          ∙ read-found (fn x)
          ∙ ap (λ z. read (fn z)) (sym (cells_view-at row 0 xs j x e))
    ]

    rows_past :
        (k : ℕ) (ds : List Row) (axis : Bytes)
        → IsRows k ds
        → row ≤ k
        → row_search fn axis (pos row) ds ≡ ok []
    rows_past k [] axis g le = unfold row_search in refl
    rows_past k (d ∷ ds) axis (b, e, c, g) le =
        rows_skip fn axis (pos row) d ds (rw e (ground arith))
        ∙ rows_past (suc k) ds axis g (omega arith)

    -- The search for the name of a cell reads that cell of the view.
    pub row_search-view :
        (k i j : ℕ) (ds : List Row)
        → IsRows k ds
        → row ≡ suc (k + i)
        → suc j ≤ max_int
        → row_search fn (cell_name (suc j) row) (pos row) ds ≡ read (fn (rows_view k ds i j))
    row_search-view k i j [] g er lc = unfold row_search in sym (blank_reads _)
    row_search-view k zero j (d ∷ ds) (b, e, c, g) er lc =
        let same : suc k ≡ row = omega arith in
        rows_hit fn (cell_name (suc j) row) (pos row) d ds (rw e (ground arith))
          (rows_past (suc k) ds (cell_name (suc j) row) g (omega arith))
        ∙ cells_read j d.c (subst (λ n. IsCells n 0 d.c) same c) lc
        ∙ ap (λ n. read (fn (cells_view n 0 d.c j))) (sym same)
    row_search-view k (suc i) j (d ∷ ds) (b, e, c, g) er lc =
        rows_skip fn (cell_name (suc j) row) (pos row) d ds (rw e (ground arith))
        ∙ row_search-view (suc k) i j ds g (omega arith) lc
