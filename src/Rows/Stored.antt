-- ===== src/Rows/Stored.antt =====
-- The rows of a worksheet as a function of the index, where what is not stored is a blank row.
use mathlib.Core.Option.{some-injective}
use excelize.Common.{
  ℕ, zero, suc, ◌+◌, ◌-◌, ◌≤◌, ◌<◌, ◌≡◌, refl, sym, ap, ◌∙◌, false, some, List, [], ◌∷◌, ◌++◌,
  arith, ◌==◌, if◌then◌else◌, length, get_elem?, set, ◌>>=◌, ok,
}
use excelize.Common.Int.{ℤ, max_int, ◌-ℤ◌, ltb_ℤ, pos}
use excelize.Rows.{update_row}
use excelize.Sheet.Data.{Row, Worksheet, blank_row, modify_at, modify_at-some}
use excelize.Sheet.Grid.{length-grown_rows}
use excelize.Sheet.Prepare.{new_cells, fill_columns, new_rows, grown_rows, prepare_sheet_xml}
use excelize.Value.Write.{pred-pos}

abbrev pub row_at : ℕ → List Row → ℕ → Row
row_at k [] i = blank_row (pos (suc (k + i)))
row_at k (d ∷ ds) zero = d
row_at k (d ∷ ds) (suc i) = row_at (suc k) ds i

pub row_at-get :
    (k : ℕ) (rows : List Row) (i : ℕ) → i < length rows → get_elem? rows i ≡ some (row_at k rows i)
row_at-get k [] i h = elim h [ ]
row_at-get k (d ∷ ds) zero h = refl
row_at-get k (d ∷ ds) (suc i) h = row_at-get (suc k) ds i (omega arith)

pub row_at-ge :
    (k : ℕ) (rows : List Row) (i : ℕ)
    → length rows ≤ i
    → row_at k rows i ≡ blank_row (pos (suc (k + i)))
row_at-ge k [] i h = refl
row_at-ge k (d ∷ ds) zero h = absurd (omega arith)
row_at-ge k (d ∷ ds) (suc i) h =
    let q : k + suc i ≡ suc k + i = omega arith in rw q (row_at-ge (suc k) ds i (omega arith))

row_at-new_rows : (k n i : ℕ) → row_at k (new_rows n k) i ≡ blank_row (pos (suc (k + i)))
unfolding new_rows
row_at-new_rows k zero i = refl
row_at-new_rows k (suc n) zero = let q : k + 0 ≡ k = omega arith in rw q
row_at-new_rows k (suc n) (suc i) =
    let q : k + suc i ≡ suc k + i = omega arith in rw q (row_at-new_rows (suc k) n i)

row_at-append :
    (k n i : ℕ) (rows : List Row)
    → row_at k (rows ++ new_rows n (k + length rows)) i ≡ row_at k rows i
row_at-append k n i [] = let q : k + 0 ≡ k = omega arith in rw q (row_at-new_rows k n i)
row_at-append k n zero (d ∷ ds) = refl
row_at-append k n (suc i) (d ∷ ds) =
    let q : k + suc (length ds) ≡ suc k + length ds = omega arith in
    rw q (row_at-append (suc k) n i ds)

-- Growing the grid changes no row.
pub row_at-grown_rows :
    (rows : List Row) (row i : ℕ) → row_at 0 (grown_rows rows (pos row)) i ≡ row_at 0 rows i
row_at-grown_rows rows row i =
    let q : 0 + length rows ≡ length rows = omega arith in
    ap (λ k. row_at 0 (rows ++ new_rows (row - length rows) k) i) (sym q)
    ∙ row_at-append 0 (row - length rows) i rows

pub row_at-set :
    (k : ℕ) (rows : List Row) (i m : ℕ) (d : Row)
    → i < length rows
    → row_at k (set rows i d) m ≡ (if i == m then d else row_at k rows m)
row_at-set k [] i m d h = elim h [ ]
row_at-set k (x ∷ xs) zero zero d h = refl
row_at-set k (x ∷ xs) zero (suc m) d h = let e : (0 == suc m) ≡ false = ground arith in rw e
row_at-set k (x ∷ xs) (suc i) zero d h = let e : (suc i == 0) ≡ false = ground arith in rw e
row_at-set k (x ∷ xs) (suc i) (suc m) d h =
    let e : (suc i == suc m) ≡ (i == m) = ground arith in
    rw e (row_at-set (suc k) xs i m d (omega arith))

append_nil : {A : Type 0} (xs : List A) → xs ++ [] ≡ xs
append_nil [] = refl
append_nil (x ∷ xs) = ap (λ t. x ∷ t) (append_nil xs)

fill_columns_none : (d : Row) (row : ℤ) → fill_columns d (pos 0) row ≡ d
unfolding fill_columns new_cells
fill_columns_none d row =
    let z : 0 - length d.c ≡ 0 = omega arith in
    ap (λ n. record d { c = d.c ++ new_cells n (length d.c) row }) z
    ∙ ap (λ cs. record d { c = cs }) (append_nil d.c)

set_same : {A : Type 0} (xs : List A) (i : ℕ) (a : A) → get_elem? xs i ≡ some a → set xs i a ≡ xs
set_same [] i a e = refl
set_same (x ∷ xs) zero a e = ap (λ y. y ∷ xs) (sym (some-injective _ _ e))
set_same (x ∷ xs) (suc i) a e = ap (λ t. x ∷ t) (set_same xs i a e)

prepare_row :
    (xlsx : Worksheet) (i : ℕ)
    → suc i ≤ max_int
    → prepare_sheet_xml xlsx (pos 0) (pos (suc i))
      ≡ ok (record xlsx { rows = grown_rows xlsx.rows (pos (suc i)) })
unfolding prepare_sheet_xml
prepare_row xlsx i hi =
    let grown = grown_rows xlsx.rows (pos (suc i)) in
    let at = row_at-get 0 grown i (length-grown_rows xlsx.rows (suc i)) in
    rw (pred-pos i hi) (
      ap (λ r. r >>= λ rows. ok (record xlsx { rows = rows }))
        (modify_at-some grown i (row_at 0 grown i) (λ d. fill_columns d (pos 0) (pos (suc i))) at)
      ∙ ap (λ rows. ok (record xlsx { rows = rows }))
          (ap (set grown i) (fill_columns_none (row_at 0 grown i) (pos (suc i)))
            ∙ set_same grown i _ at))

-- The setters write one row of the grid, which is grown up to that row.
pub update_row_lem :
    (f : Row → Row) (xlsx : Worksheet) (i : ℕ)
    → suc i ≤ max_int
    → update_row f (pos (suc i)) xlsx
      ≡ ok (record xlsx {
        rows = set (grown_rows xlsx.rows (pos (suc i))) i (f (row_at 0 xlsx.rows i));
      })
unfolding update_row
update_row_lem f xlsx i hi =
    let grown = grown_rows xlsx.rows (pos (suc i)) in
    let at = row_at-get 0 grown i (length-grown_rows xlsx.rows (suc i)) in
    let positive : ltb_ℤ (pos (suc i)) (pos 1) ≡ false = ground arith in
    rw positive (
      ap
        (λ r. r >>= λ grown. modify_at (pos (suc i) -ℤ pos 1) f grown.rows >>= λ rows.
          ok (record grown { rows = rows }))
        (prepare_row xlsx i hi)
      ∙ rw (pred-pos i hi) (
          ap (λ r. r >>= λ rows. ok (record xlsx { rows = rows }))
            (modify_at-some grown i (row_at 0 grown i) f at)
          ∙ ap (λ d. ok (record xlsx { rows = set grown i (f d) }))
              (row_at-grown_rows xlsx.rows (suc i) i)))
