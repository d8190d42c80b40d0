-- ===== src/Saved/Scatter.antt =====
-- checkRow on a row whose cells stand in the order of their columns, with gaps: it puts each cell at
-- the index of its column and fills the gaps.
use excelize.Adjust.Check.{scatter}
use excelize.Common.{
  ℕ, zero, suc, ◌+◌, ◌≤◌, ◌<◌, ◌≡◌, refl, sym, ap, ◌∙◌, ◌≢◌, inl, inr, Bool, true, false, List, [],
  ◌∷◌, arith, ◌==◌, if◌then◌else◌, Bool-cases, length, set, length-set, get_elem?-set_self,
  get_elem?-lt, Bytes, str_eq, str_eq→eq, str_eq_refl, ok,
}
use excelize.Common.Int.{max_int, pos}
use excelize.Ref.Cell.{cell_name_to_coordinates}
use excelize.Ref.Cell.RoundTrip.{cell_name, cell_name_to_coordinates-cell_name, cell_name_injective}
use excelize.Sheet.Data.{Cell, modify_at-some}
use excelize.Sheet.Grid.{IsCells}
use excelize.Sheet.View.{cells_view, cells_view-at, cells_view-set_ne}
use excelize.Value.Write.{pred-pos}

-- The cells have columns from j on and below n, in order.
abbrev pub IsAscending : ℕ → ℕ → ℕ → List Cell → Type 0
IsAscending row n j [] = Unit
IsAscending row n j (x ∷ xs) =
    (c : ℕ) × (j ≤ c) × (c < n) × (x.r ≡ cell_name (suc c) row) × IsAscending row n (suc c) xs

-- The cell of a name, or the one that stands for a missing one.
abbrev pub named_or : Cell → Bytes → List Cell → Cell
named_or other name [] = other
named_or other name (x ∷ xs) = if str_eq x.r name then x else named_or other name xs

pub cell_name-ne :
    (row c d : ℕ)
    → 0 < row
    → row ≤ max_int
    → suc c ≤ max_int
    → suc d ≤ max_int
    → c ≢ d
    → str_eq (cell_name (suc c) row) (cell_name (suc d) row) ≡ false
cell_name-ne row c d h l hc hd ne =
    by_test (str_eq (cell_name (suc c) row) (cell_name (suc d) row)) refl
  where
    by_test : (t : Bool) → str_eq (cell_name (suc c) row) (cell_name (suc d) row) ≡ t → t ≡ false
    by_test false e = refl
    by_test true e =
        let (same, rows) =
          cell_name_injective (suc c) row (suc d) row (omega arith) hc h l (omega arith) hd h l
            (str_eq→eq _ _ e) in
        absurd (ne (omega (arith, same)))

pub named_or-beyond :
    (row n j c : ℕ) (xs : List Cell) (other : Cell)
    → 0 < row
    → row ≤ max_int
    → n ≤ max_int
    → j < c
    → IsAscending row n c xs
    → named_or other (cell_name (suc j) row) xs ≡ other
named_or-beyond row n j c [] other h l ln lt a = refl
named_or-beyond row n j c (x ∷ xs) other h l ln lt (d, le, b, e, a) =
    let ne : str_eq x.r (cell_name (suc j) row) ≡ false =
      ap (λ s. str_eq s (cell_name (suc j) row)) e
      ∙ cell_name-ne row d j h l (omega arith) (omega arith) (λ q. omega (arith, q)) in
    rw ne (named_or-beyond row n j (suc d) xs other h l ln (omega arith) a)

set-IsCells :
    (row k : ℕ) (cells : List Cell) (i : ℕ) (x : Cell)
    → x.r ≡ cell_name (suc (k + i)) row
    → IsCells row k cells
    → IsCells row k (set cells i x)
set-IsCells row k [] i x e h = h
set-IsCells row k (y ∷ ys) zero x e (b, e', h) =
    let q : k + 0 ≡ k = omega arith in (b, e ∙ ap (λ m. cell_name (suc m) row) q, h)
set-IsCells row k (y ∷ ys) (suc i) x e (b, e', h) =
    let q : k + suc i ≡ suc k + i = omega arith in
    (b, e', set-IsCells row (suc k) ys i x (e ∙ ap (λ m. cell_name (suc m) row) q) h)

scatter-step :
    (row c : ℕ) (x : Cell) (xs cells : List Cell)
    → 0 < row
    → row ≤ max_int
    → suc c ≤ max_int
    → c < length cells
    → x.r ≡ cell_name (suc c) row
    → scatter (x ∷ xs) cells ≡ scatter xs (set cells c x)
unfolding scatter
scatter-step row c x xs cells h l hc lt e =
    let at : cell_name_to_coordinates x.r ≡ ok (pos (suc c), pos row) =
      ap cell_name_to_coordinates e
      ∙ cell_name_to_coordinates-cell_name (suc c) row (omega arith) hc h l in
    let (y, there) = get_elem?-lt cells c lt in
    rw (scatter, at, pred-pos c hc, modify_at-some cells c y (λ z. x) there) refl

placed :
    (row n c i : ℕ) (x : Cell) (xs cells : List Cell)
    → 0 < row
    → row ≤ max_int
    → n ≤ max_int
    → c < n
    → length cells ≡ n
    → x.r ≡ cell_name (suc c) row
    → IsAscending row n (suc c) xs
    → i < n
    → named_or (cells_view row 0 (set cells c x) i) (cell_name (suc i) row) xs
      ≡ named_or (cells_view row 0 cells i) (cell_name (suc i) row) (x ∷ xs)
placed row n c i x xs cells h l ln lt len e a li = elim (Bool-cases (c == i)) [
  | inl q ↦
      let same : c ≡ i = ground (arith, q) in
      let self : str_eq x.r (cell_name (suc i) row) ≡ true =
        ap (λ s. str_eq s (cell_name (suc i) row)) (e ∙ ap (λ m. cell_name (suc m) row) same)
        ∙ str_eq_refl (cell_name (suc i) row) in
      named_or-beyond row n i (suc c) xs _ h l ln (omega (arith, same)) a
      ∙ ap (λ m. cells_view row 0 (set cells m x) i) same
      ∙ cells_view-at row 0 (set cells i x) i x (get_elem?-set_self cells i x (omega arith))
      ∙ ap (λ t. if t then x else named_or (cells_view row 0 cells i) (cell_name (suc i) row) xs)
          (sym self)
  | inr q ↦
      let ne : c ≢ i = λ r. (let z : (c == i) ≡ true = ground (arith, r) in cc (sym z ∙ q)) in
      let other : str_eq x.r (cell_name (suc i) row) ≡ false =
        ap (λ s. str_eq s (cell_name (suc i) row)) e
        ∙ cell_name-ne row c i h l (omega arith) (omega arith) ne in
      ap (λ y. named_or y (cell_name (suc i) row) xs) (cells_view-set_ne row 0 cells c i x ne)
      ∙ ap (λ t. if t then x else named_or (cells_view row 0 cells i) (cell_name (suc i) row) xs)
          (sym other)
]

pub scatter-view :
    (row n j : ℕ) (xs cells : List Cell)
    → 0 < row
    → row ≤ max_int
    → n ≤ max_int
    → length cells ≡ n
    → IsAscending row n j xs
    → IsCells row 0 cells
    → (dense : List Cell) × (scatter xs cells ≡ ok (dense, true))
      × IsCells row 0 dense
      × (length dense ≡ n)
      × ((i : ℕ)
          → i < n
          → cells_view row 0 dense i
            ≡ named_or (cells_view row 0 cells i) (cell_name (suc i) row) xs)
unfolding scatter
scatter-view row n j [] cells h l ln len a g = (cells, refl, g, len, λ i li. refl)
scatter-view row n j (x ∷ xs) cells h l ln len (c, le, lt, e, a) g =
    let (dense, done, is, len', sees) =
      scatter-view row n (suc c) xs (set cells c x) h l ln (length-set cells c x ∙ len) a
        (set-IsCells row 0 cells c x (e ∙ ap (λ m. cell_name (suc m) row) (omega arith)) g) in
    (
      dense,
      scatter-step row c x xs cells h l (omega arith) (omega arith) e ∙ done,
      is,
      len',
      λ i li. sees i li ∙ placed row n c i x xs cells h l ln lt len e a li,
    )
