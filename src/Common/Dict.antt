-- ===== src/Common/Dict.antt =====
-- Go maps from texts, as association lists; a nil pointer in a map counts as a missing entry.
use mathlib.Core.Path.{◌≡◌, refl, sym, ap, ◌∙◌}
use mathlib.Core.Bool.{Bool, true, false}
use mathlib.Core.Option.{Option, none, some}
use mathlib.Core.List.{List, [], ◌∷◌}
use native.Mathlib.Omega.{arith}
use excelize.Common.Tests.{if◌then◌else◌}
use excelize.Common.Text.{Bytes, str_eq, str_eq→eq, str_eq_refl}

abbrev pub Dict {ℓ} : Type ℓ → Type ℓ
Dict V = List (Bytes × V)

module _ {ℓ} {V : Type ℓ} where
  unfoldable pub lookup : Bytes → Dict V → Option V
  lookup j [] = none
  lookup j ((k, v) ∷ d) = if str_eq k j then some v else lookup j d

  unfoldable pub insert : Bytes → V → Dict V → Dict V
  insert k v [] = (k, v) ∷ []
  insert k v ((k', w) ∷ d) = if str_eq k' k then (k, v) ∷ d else (k', w) ∷ insert k v d

  unfoldable pub delete : Bytes → Dict V → Dict V
  delete k [] = []
  delete k ((k', w) ∷ d) = if str_eq k' k then delete k d else (k', w) ∷ delete k d

pub str_eq-false_of :
    (j k k' : Bytes) → str_eq k' k ≡ false → str_eq k' j ≡ true → str_eq k j ≡ false
str_eq-false_of j k k' ne e = by_test (str_eq k j) refl
  where
    by_test : (t : Bool) → str_eq k j ≡ t → t ≡ false
    by_test false h = refl
    by_test true h =
        cc (ap (λ s. str_eq s k) (str_eq→eq k' j e ∙ sym (str_eq→eq k j h)) ∙ str_eq_refl k)

pub str_eq-false_sym : (j k : Bytes) → str_eq j k ≡ false → str_eq k j ≡ false
str_eq-false_sym j k h = by_test (str_eq k j) refl
  where
    by_test : (t : Bool) → str_eq k j ≡ t → t ≡ false
    by_test false e = refl
    by_test true e = cc (sym h ∙ ap (λ s. str_eq j s) (str_eq→eq k j e) ∙ str_eq_refl j)

-- A key that equals one of two different keys differs from the other; equal keys have equal tests.
pub str_eq_same : (j k k' : Bytes) → str_eq k' k ≡ true → str_eq k' j ≡ str_eq k j
str_eq_same j k k' e = ap (λ s. str_eq s j) (str_eq→eq k' k e)

module _ {ℓ} {V : Type ℓ} where
  pub lookup-insert :
      (j k : Bytes) (v : V) (d : Dict V)
      → lookup j (insert k v d) ≡ (if str_eq k j then some v else lookup j d)
  unfolding lookup insert
  lookup-insert j k v [] = refl
  lookup-insert j k v ((k', w) ∷ d) = by_test (str_eq k' k) refl (lookup-insert j k v d)
    where
      by_test :
          (t : Bool)
          → str_eq k' k ≡ t
          → lookup j (insert k v d) ≡ (if str_eq k j then some v else lookup j d)
          → lookup j (if t then (k, v) ∷ d else (k', w) ∷ insert k v d)
            ≡ (if str_eq k j then some v else if str_eq k' j then some w else lookup j d)
      by_test true e ih = rw (str_eq_same j k k' e) (ground arith)
      by_test false e ih = rw ih (ground (arith, str_eq-false_of j k k' e))

  pub lookup-delete :
      (j k : Bytes) (d : Dict V) → lookup j (delete k d) ≡ (if str_eq k j then none else lookup j d)
  unfolding lookup delete
  lookup-delete j k [] = ground arith
  lookup-delete j k ((k', w) ∷ d) = by_test (str_eq k' k) refl (lookup-delete j k d)
    where
      by_test :
          (t : Bool)
          → str_eq k' k ≡ t
          → lookup j (delete k d) ≡ (if str_eq k j then none else lookup j d)
          → lookup j (if t then delete k d else (k', w) ∷ delete k d)
            ≡ (if str_eq k j then none else if str_eq k' j then some w else lookup j d)
      by_test true e ih = rw (str_eq_same j k k' e) (ih ∙ ground arith)
      by_test false e ih = rw ih (ground (arith, str_eq-false_of j k k' e))
