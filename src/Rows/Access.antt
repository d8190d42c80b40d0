-- ===== src/Rows/Access.antt =====
-- What the getters give behind each setter, for every row.
use mathlib.Core.Path.{subst}
use excelize.Cols.{float_zero}
use excelize.Common.{
  ℕ, zero, suc, ◌+◌, ◌-◌, ◌≤◌, ◌<◌, ◌≡◌, refl, sym, ap, ◌∙◌, Bool, true, false, not, ◌||◌, none,
  some, List, [], ◌∷◌, arith, ltb, ◌==◌, if◌then◌else◌, length, get_elem?, set, length-append,
  length-set, ◌>>=◌, ok, fault,
}
use excelize.Common.Int.{max_int, ltb_ℤ, eqb_ℤ, pos}
use excelize.Rows.{
  default_row_height_pixels, update_row, write_height, write_visible, write_level, set_row_height,
  set_row_visible, set_row_outline_level, height_loop, get_row_height, read_row, get_row_visible,
  get_row_outline_level,
}
use excelize.Rows.Stored.{
  row_at, row_at-get, row_at-ge, row_at-grown_rows, row_at-set, update_row_lem,
}
use excelize.Sheet.Data.{Row, Worksheet}
use excelize.Sheet.Grid.{
  IsCells, IsRows, IsGrid, grown_rows-IsRows, length-new_rows, length-grown_rows, IsRows-at,
  set-IsRows,
}
use excelize.Sheet.Prepare.{new_rows, grown_rows}
use excelize.Value.Write.{pred-pos}

length_grown :
    (rows : List Row) (n : ℕ) → length (grown_rows rows (pos n)) ≡ length rows + (n - length rows)
length_grown rows n = omega (
  arith,
  length-append rows (new_rows (n - length rows) (length rows)),
  length-new_rows (n - length rows) (length rows),
)

read_row_lem :
    {A : Type 0} (field : Row → A) (otherwise : A) (xlsx : Worksheet) (m : ℕ)
    → suc m ≤ max_int
    → read_row field otherwise (pos (suc m)) xlsx
      ≡ ok (if ltb m (length xlsx.rows) then field (row_at 0 xlsx.rows m) else otherwise)
unfolding read_row
read_row_lem field otherwise xlsx m hm = by_test (ltb m (length xlsx.rows)) refl
  where
    positive : ltb_ℤ (pos (suc m)) (pos 1) ≡ false
    positive = ground arith

    by_test :
        (t : Bool)
        → ltb m (length xlsx.rows) ≡ t
        → read_row field otherwise (pos (suc m)) xlsx
          ≡ ok (if t then field (row_at 0 xlsx.rows m) else otherwise)
    by_test true e =
        let lt : m < length xlsx.rows = ground arith in
        let in_grid : ltb_ℤ (pos (length xlsx.rows)) (pos (suc m)) ≡ false = ground arith in
        rw (positive, in_grid, pred-pos m hm)
          (ap (λ o. elim o [ none ↦ fault | some d ↦ ok (field d) ]) (row_at-get 0 xlsx.rows m lt))
    by_test false e =
        let behind : ltb_ℤ (pos (length xlsx.rows)) (pos (suc m)) ≡ true = ground arith in
        rw (positive, behind)

-- A field of the row m + 1 behind a write to the row i + 1.
read_row-update_row :
    {A : Type 0} (field : Row → A) (otherwise : A) (f : Row → Row) (xlsx : Worksheet) (i m : ℕ)
    → suc i ≤ max_int
    → suc m ≤ max_int
    → (update_row f (pos (suc i)) xlsx >>= read_row field otherwise (pos (suc m)))
      ≡ ok (
          if i == m
          then field (f (row_at 0 xlsx.rows i))
          else if ltb m (length xlsx.rows) || ltb m i
          then field (row_at 0 xlsx.rows m)
          else otherwise)
read_row-update_row field otherwise f xlsx i m hi hm =
    let grown = grown_rows xlsx.rows (pos (suc i)) in
    let stored = set grown i (f (row_at 0 xlsx.rows i)) in
    ap (λ r. r >>= read_row field otherwise (pos (suc m))) (update_row_lem f xlsx i hi)
    ∙ (read_row_lem field otherwise (record xlsx { rows = stored }) m hm
        ∙ (ap (λ d. ok (if ltb m (length stored) then field d else otherwise))
              (row_at-set 0 grown i m _ (length-grown_rows xlsx.rows (suc i))
                ∙ ap (λ d. if i == m then f (row_at 0 xlsx.rows i) else d)
                    (row_at-grown_rows xlsx.rows (suc i) m))
            ∙ ap ok (
                ground (
                  arith,
                  length-set grown i (f (row_at 0 xlsx.rows i)),
                  length_grown xlsx.rows (suc i),
                ))))

-- SetRowVisible gives its row the new visibility. Another row keeps its own when it is in the grid
-- or above the row that is set, where a row that was not in the grid becomes visible; any row
-- further down is reported as not visible.
pub get-set_row_visible :
    (i m : ℕ) (v : Bool) (xlsx : Worksheet)
    → suc i ≤ max_int
    → suc m ≤ max_int
    → (set_row_visible (pos (suc i)) v xlsx >>= get_row_visible (pos (suc m)))
      ≡ ok (
          if i == m
          then v
          else if ltb m (length xlsx.rows) || ltb m i
          then not (row_at 0 xlsx.rows m).hidden
          else false)
unfolding set_row_visible get_row_visible
get-set_row_visible i m v xlsx hi hm =
    read_row-update_row (λ d. not d.hidden) false (write_visible v) xlsx i m hi hm ∙ ground arith

level_behind :
    (rows : List Row) (m : ℕ) (t : Bool)
    → (if ltb m (length rows) || t then (row_at 0 rows m).outline_level else 0)
      ≡ (row_at 0 rows m).outline_level
level_behind rows m t = by_test (ltb m (length rows)) refl
  where
    by_test :
        (b : Bool)
        → ltb m (length rows) ≡ b
        → (if b || t then (row_at 0 rows m).outline_level else 0) ≡ (row_at 0 rows m).outline_level
    by_test true e = refl
    by_test false e = rw (row_at-ge 0 rows m (ground arith)) (ground arith)

-- SetRowOutlineLevel gives its row the new level, and every other row keeps its level.
pub get-set_row_outline_level :
    (i m level : ℕ) (xlsx : Worksheet)
    → suc i ≤ max_int
    → suc m ≤ max_int
    → (set_row_outline_level (pos (suc i)) level xlsx >>= get_row_outline_level (pos (suc m)))
      ≡ ok (if i == m then level else (row_at 0 xlsx.rows m).outline_level)
unfolding set_row_outline_level get_row_outline_level
get-set_row_outline_level i m level xlsx hi hm =
    read_row-update_row (λ d. d.outline_level) 0 (write_level level) xlsx i m hi hm
    ∙ ap (λ l. ok (if i == m then level else l)) (level_behind xlsx.rows m (ltb m i))

-- The height that a row shows.
abbrev pub height_of : Row → ℕ
height_of d = if float_zero d.ht then default_row_height_pixels else d.ht

height_loop_above :
    (k : ℕ) (rows : List Row) (n : ℕ)
    → IsRows k rows
    → n ≤ k
    → height_loop rows (pos n) ≡ default_row_height_pixels
unfolding height_loop
height_loop_above k [] n g h = refl
height_loop_above k (d ∷ ds) n (b, er, hc, g) h =
    let e : eqb_ℤ d.r (pos n) ≡ false = rw er (ground arith) in
    rw e (height_loop_above (suc k) ds n g (omega arith))

height_loop_lem :
    (k : ℕ) (rows : List Row) (i : ℕ)
    → IsRows k rows
    → height_loop rows (pos (suc (k + i))) ≡ height_of (row_at k rows i)
unfolding height_loop
height_loop_lem k [] i g = refl
height_loop_lem k (d ∷ ds) zero (b, er, hc, g) =
    let e : eqb_ℤ d.r (pos (suc (k + 0))) ≡ true = rw er (ground arith) in
    rw e (
      let z : k + 0 ≡ k = omega arith in
      ap (λ h. if not (float_zero d.ht) then d.ht else h)
        (height_loop_above (suc k) ds (suc (k + 0)) g (omega arith))
      ∙ ground arith)
height_loop_lem k (d ∷ ds) (suc i) (b, er, hc, g) =
    let e : eqb_ℤ d.r (pos (suc (k + suc i))) ≡ false = rw er (ground arith) in
    let q : k + suc i ≡ suc k + i = omega arith in rw e (rw q (height_loop_lem (suc k) ds i g))

get_row_height_lem :
    (xlsx : Worksheet) (m : ℕ)
    → IsGrid xlsx
    → get_row_height (pos (suc m)) xlsx ≡ ok (height_of (row_at 0 xlsx.rows m))
unfolding get_row_height
get_row_height_lem xlsx m g = by_test (ltb m (length xlsx.rows)) refl
  where
    positive : ltb_ℤ (pos (suc m)) (pos 1) ≡ false
    positive = ground arith

    by_test :
        (t : Bool)
        → ltb m (length xlsx.rows) ≡ t
        → get_row_height (pos (suc m)) xlsx ≡ ok (height_of (row_at 0 xlsx.rows m))
    by_test true e =
        let in_grid : ltb_ℤ (pos (length xlsx.rows)) (pos (suc m)) ≡ false = ground arith in
        let z : 0 + m ≡ m = omega arith in
        rw (positive, in_grid) (ap ok (rw z at (height_loop_lem 0 xlsx.rows m g)))
    by_test false e =
        let behind : ltb_ℤ (pos (length xlsx.rows)) (pos (suc m)) ≡ true = ground arith in
        rw (positive, behind, row_at-ge 0 xlsx.rows m (ground arith))

-- A write to a row that keeps its number and its cells keeps the grid well-formed.
update_row-IsRows :
    (f : Row → Row) (xlsx : Worksheet) (i : ℕ)
    → IsGrid xlsx
    → suc i ≤ max_int
    → ((d : Row) → ((f d).r ≡ d.r) × ((f d).c ≡ d.c))
    → IsRows 0 (set (grown_rows xlsx.rows (pos (suc i))) i (f (row_at 0 xlsx.rows i)))
update_row-IsRows f xlsx i g hi keeps =
    let grown = grown_rows xlsx.rows (pos (suc i)) in
    let d = row_at 0 xlsx.rows i in
    let at : get_elem? grown i ≡ some d =
      row_at-get 0 grown i (length-grown_rows xlsx.rows (suc i))
      ∙ ap some (row_at-grown_rows xlsx.rows (suc i) i) in
    let (b, er, hc) = IsRows-at 0 grown i d (grown_rows-IsRows xlsx.rows (suc i) hi g) at in
    let (kr, kc) = keeps d in
    set-IsRows 0 grown i (f d) (grown_rows-IsRows xlsx.rows (suc i) hi g) (kr ∙ er)
      (subst (IsCells (suc (0 + i)) 0) (sym kc) hc)

-- SetRowHeight on a well-formed grid gives its row the new height, where a height of zero is shown
-- as the default, and every other row keeps its height.
pub get-set_row_height :
    (i m height : ℕ) (xlsx : Worksheet)
    → IsGrid xlsx
    → suc i ≤ max_int
    → (set_row_height (pos (suc i)) height xlsx >>= get_row_height (pos (suc m)))
      ≡ ok (
          if i == m
          then (if float_zero height then default_row_height_pixels else height)
          else height_of (row_at 0 xlsx.rows m))
unfolding set_row_height
get-set_row_height i m height xlsx g hi =
    let grown = grown_rows xlsx.rows (pos (suc i)) in
    let d = write_height height (row_at 0 xlsx.rows i) in
    ap (λ r. r >>= get_row_height (pos (suc m))) (update_row_lem (write_height height) xlsx i hi)
    ∙ (get_row_height_lem (record xlsx { rows = set grown i d }) m
          (update_row-IsRows (write_height height) xlsx i g hi (λ d. (refl, refl)))
        ∙ ap (λ d. ok (height_of d))
            (row_at-set 0 grown i m d (length-grown_rows xlsx.rows (suc i))
              ∙ ap (λ e. if i == m then d else e) (row_at-grown_rows xlsx.rows (suc i) m))
        ∙ ground arith)
