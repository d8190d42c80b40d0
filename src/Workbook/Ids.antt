-- ===== src/Workbook/Ids.antt =====
-- The ids of the sheets of a workbook, which are the numbers of their files (NewSheet, sheet.go).
use Prim.Native.Nat.{max}
use excelize.Common.{
  ℕ, ◌<◌, ◌≡◌, refl, ap, ◌∙◌, Bool, false, ◌||◌, List, [], ◌∷◌, ◌++◌, arith, if◌then◌else◌,
}
use excelize.Common.Int.{ℤ, pos_part, ltb_ℤ, eqb_ℤ, pos}
use excelize.Workbook.Create.{max_sheet_id}
use excelize.Workbook.Data.{SheetEntry}

-- Each id is a number from 0 on.
abbrev pub HasNumbers : List SheetEntry → Type 0
HasNumbers [] = Unit
HasNumbers (v ∷ vs) = ((n : ℕ) × (v.sheet_id ≡ pos n)) × HasNumbers vs

abbrev pub largest_id : List SheetEntry → ℕ
largest_id [] = 0
largest_id (v ∷ vs) = max (pos_part v.sheet_id) (largest_id vs)

abbrev pub has_id : ℤ → List SheetEntry → Bool
has_id z [] = false
has_id z (v ∷ vs) = eqb_ℤ v.sheet_id z || has_id z vs

-- No id occurs twice.
abbrev pub DistinctIds : List SheetEntry → Type 0
DistinctIds [] = Unit
DistinctIds (v ∷ vs) = (has_id v.sheet_id vs ≡ false) × DistinctIds vs

larger : (k n : ℕ) → (if ltb_ℤ (pos k) (pos n) then pos n else pos k) ≡ pos (max k n)
larger k n = ground arith

max_sheet_id-from :
    (vs : List SheetEntry) (k : ℕ)
    → HasNumbers vs
    → max_sheet_id vs (pos k) ≡ pos (max k (largest_id vs))
unfolding max_sheet_id
max_sheet_id-from [] k h = ap pos (omega arith)
max_sheet_id-from (v ∷ vs) k ((n, e), h) =
    ap (λ z. max_sheet_id vs (if ltb_ℤ (pos k) z then z else pos k)) e
    ∙ ap (max_sheet_id vs) (larger k n)
    ∙ max_sheet_id-from vs (max k n) h
    ∙ ap pos (ground (arith, e))

-- The loop of NewSheet finds the largest id.
pub max_sheet_id-largest :
    (vs : List SheetEntry) → HasNumbers vs → max_sheet_id vs (pos 0) ≡ pos (largest_id vs)
max_sheet_id-largest vs h = max_sheet_id-from vs 0 h ∙ ap pos (omega arith)

has_id-append :
    (z : ℤ) (vs : List SheetEntry) (e : SheetEntry)
    → has_id z vs ≡ false
    → eqb_ℤ e.sheet_id z ≡ false
    → has_id z (vs ++ e ∷ []) ≡ false
has_id-append z [] e h h' = rw h' refl
has_id-append z (v ∷ vs) e h h' =
    let rest = has_id-append z vs e (ground arith) h' in
    let other : eqb_ℤ v.sheet_id z ≡ false = ground arith in rw (other, rest) refl

-- An id behind the largest one is new.
pub DistinctIds-append :
    (vs : List SheetEntry) (e : SheetEntry) (n : ℕ)
    → e.sheet_id ≡ pos n
    → largest_id vs < n
    → HasNumbers vs
    → DistinctIds vs
    → DistinctIds (vs ++ e ∷ [])
DistinctIds-append [] e n en lt h d = (refl, tt)
DistinctIds-append (v ∷ vs) e n en lt ((m, em), h) (d, ds) =
    let part : pos_part v.sheet_id ≡ m = ap pos_part em in
    let other : eqb_ℤ e.sheet_id v.sheet_id ≡ false =
      ap (λ z. eqb_ℤ z v.sheet_id) en ∙ ap (λ z. eqb_ℤ (pos n) z) em ∙ ground arith in
    (has_id-append v.sheet_id vs e d other, DistinctIds-append vs e n en (omega arith) h ds)
