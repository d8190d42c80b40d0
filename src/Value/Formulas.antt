-- ===== src/Value/Formulas.antt =====
-- The formula that GetCellFormula reads, described by the list of the formulas of the worksheet.
use excelize.Common.{
  ℕ, suc, ◌≤◌, ◌≡◌, refl, sym, ◌∙◌, Bool, true, false, not, ◌&&◌, Option, none, some, List, [], ◌∷◌,
  ◌++◌, arith, if◌then◌else◌, Bytes, codes, str_eq, ok,
}
use excelize.Common.Int.{max_int}
use excelize.Merge.{merge_cells_parser}
use excelize.Ref.Cell.RoundTrip.{cell_name}
use excelize.Sheet.Data.{Formula, Cell, Row, Worksheet}
use excelize.Sheet.Grid.{IsGrid}
use excelize.Sheet.View.{view}
use excelize.Value.{is_origin, origin_in_row, get_shared_formula, formula_fn, get_cell_formula}
use excelize.Value.Access.{get_cell_formula-view}
use excelize.Value.Find.{read}

abbrev with_formula : Option Formula → List Formula → List Formula
with_formula none fs = fs
with_formula (some f) fs = f ∷ fs

abbrev cell_formulas : List Cell → List Formula
cell_formulas [] = []
cell_formulas (x ∷ xs) = with_formula x.f (cell_formulas xs)

-- The formulas of a worksheet in reading order.
abbrev pub all_formulas : List Row → List Formula
all_formulas [] = []
all_formulas (d ∷ ds) = cell_formulas d.c ++ all_formulas ds

-- A shared formula with the index and an area stands for its group.
abbrev pub stands_for : Bytes → Formula → Bool
stands_for si f = str_eq f.t (codes "shared") && (str_eq f.si si && not (str_eq f.ref []))

abbrev pub group_content : Bytes → List Formula → Bytes
group_content si [] = []
group_content si (f ∷ fs) = if stands_for si f then f.content else group_content si fs

-- The formula that a cell shows.
abbrev pub shown_formula : List Formula → Option Formula → Bytes
shown_formula fs none = []
shown_formula fs (some f) = if str_eq f.t (codes "shared") then group_content f.si fs else f.content

is_origin-stands_for : (si : Bytes) (f : Formula) → is_origin si f ≡ stands_for si f
unfolding is_origin
is_origin-stands_for si f =
    by_tests (str_eq f.ref []) (str_eq f.t (codes "shared")) (str_eq f.si si)
  where
    by_tests : (a b c : Bool) → (not a && b && c) ≡ (b && (c && not a))
    by_tests a b c = ground arith

group_content-append :
    (si : Bytes) (xs : List Cell) (fs : List Formula)
    → group_content si (cell_formulas xs ++ fs) ≡ (elim (origin_in_row si xs) as (λ q. Bytes) [
      | none ↦ group_content si fs
      | some content ↦ content
    ])
unfolding origin_in_row
group_content-append si [] fs = refl
group_content-append si (x ∷ xs) fs = by_formula x.f (group_content-append si xs fs)
  where
    by_formula :
        (q : Option Formula)
        → group_content si (cell_formulas xs ++ fs) ≡ (elim (origin_in_row si xs) as (λ q. Bytes) [
          | none ↦ group_content si fs
          | some content ↦ content
        ])
        → group_content si (with_formula q (cell_formulas xs) ++ fs)
          ≡ (elim (elim q as (λ q. Option Bytes) [
            | none ↦ origin_in_row si xs
            | some f ↦ if is_origin si f then some f.content else origin_in_row si xs
          ])
              as (λ q. Bytes) [ none ↦ group_content si fs | some content ↦ content ])
    by_formula none h = h
    by_formula (some f) h = rw (is_origin-stands_for si f) (by_test (stands_for si f))
      where
        by_test :
            (t : Bool)
            → (if t then f.content else group_content si (cell_formulas xs ++ fs))
              ≡ (elim (if t then some f.content else origin_in_row si xs) as (λ q. Bytes) [
                | none ↦ group_content si fs
                | some content ↦ content
              ])
        by_test true = refl
        by_test false = h

get_shared_formula-group :
    (rows : List Row) (si : Bytes)
    → get_shared_formula rows si ≡ group_content si (all_formulas rows)
unfolding get_shared_formula
get_shared_formula-group [] si = refl
get_shared_formula-group (d ∷ ds) si =
    by_row (origin_in_row si d.c) (get_shared_formula-group ds si)
    ∙ sym (group_content-append si d.c (all_formulas ds))
  where
    by_row :
        (q : Option Bytes)
        → get_shared_formula ds si ≡ group_content si (all_formulas ds)
        → (elim q as (λ q. Bytes) [ none ↦ get_shared_formula ds si | some content ↦ content ])
          ≡ (elim q as (λ q. Bytes) [
            | none ↦ group_content si (all_formulas ds)
            | some content ↦ content
          ])
    by_row none h = h
    by_row (some content) h = refl

read-formula_fn :
    (xlsx : Worksheet) (y : Cell)
    → read (formula_fn xlsx y) ≡ ok (shown_formula (all_formulas xlsx.rows) y.f)
unfolding formula_fn
read-formula_fn xlsx y = by_formula y.f
  where
    by_formula :
        (q : Option Formula)
        → read (formula_fn xlsx (record y { f = q }))
          ≡ ok (shown_formula (all_formulas xlsx.rows) q)
    by_formula none = refl
    by_formula (some f) =
        rw (sym (get_shared_formula-group xlsx.rows f.si)) (by_test (str_eq f.t (codes "shared")))
      where
        by_test :
            (t : Bool)
            → read
                (if t then ok (get_shared_formula xlsx.rows f.si, true) else ok (f.content, true))
              ≡ ok (if t then get_shared_formula xlsx.rows f.si else f.content)
        by_test true = refl
        by_test false = refl

-- On a well-formed grid, at an axis that leads to a cell in range, GetCellFormula reads the formula of
-- that cell: its own content, or for a shared formula the content of the first shared formula of the
-- worksheet, in reading order, that has its index and an area; without one, and without a formula, the
-- empty text.
pub get_cell_formula-shown :
    (axis : Bytes) (xlsx : Worksheet) (i j : ℕ)
    → IsGrid xlsx
    → merge_cells_parser xlsx axis ≡ ok (cell_name (suc j) (suc i))
    → suc i ≤ max_int
    → suc j ≤ max_int
    → get_cell_formula axis xlsx ≡ ok (shown_formula (all_formulas xlsx.rows) (view xlsx i j).f)
get_cell_formula-shown axis xlsx i j g lead hi hj =
    get_cell_formula-view axis xlsx i j g lead hi hj ∙ read-formula_fn xlsx (view xlsx i j)
