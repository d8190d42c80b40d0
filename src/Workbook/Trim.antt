-- ===== src/Workbook/Trim.antt =====
-- trimSheetName against its description: the first 31 of the allowed runes.
use mathlib.Core.Path.{subst}
use excelize.Common.{
  ℕ, zero, suc, ◌+◌, ◌≤◌, ◌≡◌, refl, sym, ap, ◌∙◌, Bool, true, false, ◌||◌, [], ◌∷◌, arith, ltb,
  ◌==◌, if◌then◌else◌, length, take, Bytes,
}
use excelize.Workbook.Names.{forbidden, contains_any, max_name, trim_loop, trim_sheet_name}

abbrev pub allowed : Bytes → Bytes
allowed [] = []
allowed (v ∷ vs) = if forbidden v then allowed vs else v ∷ allowed vs

trim_loop-take :
    (vs : Bytes) (n room : ℕ)
    → n + suc room ≡ max_name
    → trim_loop vs n ≡ take (suc room) (allowed vs)
unfolding trim_loop
trim_loop-take [] n room h = refl
trim_loop-take (v ∷ vs) n room h =
    by_test (forbidden v) room h (trim_loop-take vs n room h) (trim_loop-take vs (suc n))
  where
    by_test :
        (t : Bool) (room : ℕ)
        → n + suc room ≡ max_name
        → trim_loop vs n ≡ take (suc room) (allowed vs)
        → ((k : ℕ) → suc n + suc k ≡ max_name → trim_loop vs (suc n) ≡ take (suc k) (allowed vs))
        → (elim t [
          | true ↦ trim_loop vs n
          | false ↦ elim (suc n == max_name) [ true ↦ v ∷ [] | false ↦ v ∷ trim_loop vs (suc n) ]
        ])
          ≡ take (suc room) (if t then allowed vs else v ∷ allowed vs)
    by_test true room h same more = same
    by_test false zero h same more = let e : (suc n == max_name) ≡ true = ground arith in rw e
    by_test false (suc k) h same more =
        let e : (suc n == max_name) ≡ false = ground arith in
        rw e (ap (λ t. v ∷ t) (more k (omega arith)))

allowed_id : (vs : Bytes) → contains_any vs ≡ false → allowed vs ≡ vs
unfolding contains_any
allowed_id [] h = refl
allowed_id (v ∷ vs) h =
    let e : forbidden v ≡ false = ground arith in
    let r : contains_any vs ≡ false = ground arith in rw e (ap (λ t. v ∷ t) (allowed_id vs r))

take_short : (n : ℕ) (vs : Bytes) → length vs ≤ n → take n vs ≡ vs
take_short n [] h = by_number n
  where
    by_number : (n : ℕ) → take {A = ℕ} n [] ≡ []
    by_number zero = refl
    by_number (suc n) = refl
take_short zero (v ∷ vs) h = absurd (omega arith)
take_short (suc n) (v ∷ vs) h = ap (λ t. v ∷ t) (take_short n vs (omega arith))

trim_sheet_name-take : (name : Bytes) → trim_sheet_name name ≡ take max_name (allowed name)
unfolding trim_sheet_name
trim_sheet_name-take name = by_tests (contains_any name) (ltb max_name (length name)) refl refl
  where
    by_tests :
        (s t : Bool)
        → contains_any name ≡ s
        → ltb max_name (length name) ≡ t
        → (if s || t then trim_loop name 0 else name) ≡ take max_name (allowed name)
    by_tests true t e e' = trim_loop-take name 0 30 refl
    by_tests false true e e' = trim_loop-take name 0 30 refl
    by_tests false false e e' =
        sym (ap (take max_name) (allowed_id name e) ∙ take_short max_name name (ground arith))

contains_any-take : (n : ℕ) (vs : Bytes) → contains_any (take n (allowed vs)) ≡ false
unfolding contains_any
contains_any-take zero vs = refl
contains_any-take (suc n) [] = refl
contains_any-take (suc n) (v ∷ vs) =
    by_test (forbidden v) refl (contains_any-take (suc n) vs) (contains_any-take n vs)
  where
    by_test :
        (t : Bool)
        → forbidden v ≡ t
        → contains_any (take (suc n) (allowed vs)) ≡ false
        → contains_any (take n (allowed vs)) ≡ false
        → contains_any (take (suc n) (if t then allowed vs else v ∷ allowed vs)) ≡ false
    by_test true e h h' = h
    by_test false e h h' = rw e h'

length-take_le : (n : ℕ) (vs : Bytes) → length (take n vs) ≤ n
length-take_le zero vs = omega arith
length-take_le (suc n) [] = omega arith
length-take_le (suc n) (v ∷ vs) = omega (arith, length-take_le n vs)

-- A name that a sheet may have.
abbrev pub IsName : Bytes → Type 0
IsName name = (contains_any name ≡ false) × (length name ≤ max_name)

-- A name that a sheet may have stays as it is.
pub trim_id : (name : Bytes) → IsName name → trim_sheet_name name ≡ name
trim_id name h =
    trim_sheet_name-take name
    ∙ (ap (take max_name) (allowed_id name h.0) ∙ take_short max_name name h.1)

trim-IsName : (name : Bytes) → IsName (trim_sheet_name name)
trim-IsName name = (
  ap contains_any (trim_sheet_name-take name) ∙ contains_any-take max_name name,
  subst (λ s. length s ≤ max_name) (sym (trim_sheet_name-take name))
      (length-take_le max_name (allowed name)),
)

-- A name is trimmed to the first 31 of its allowed runes; what is left has at most 31 runes, none of
-- them forbidden, and is not trimmed any further.
pub trim_sheet_name-IsName :
    (name : Bytes)
    → (trim_sheet_name name ≡ take max_name (allowed name))
      × IsName (trim_sheet_name name)
      × (trim_sheet_name (trim_sheet_name name) ≡ trim_sheet_name name)
trim_sheet_name-IsName name =
    (trim_sheet_name-take name, trim-IsName name, trim_id (trim_sheet_name name) (trim-IsName name))
