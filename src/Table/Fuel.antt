-- ===== src/Table/Fuel.antt =====
-- The fuel of the tokenizer: the length of the text is enough.
use mathlib.Core.Path.{subst}
use mathlib.Core.Option.{some-injective}
use excelize.Common.{
  ℕ, zero, suc, ◌≤◌, ◌≡◌, refl, ap, Bool, true, false, Option, none, some, List, [], ◌∷◌, arith,
  ◌==◌, if◌then◌else◌, length, Bytes,
}
use excelize.Table.Tokens.{is_space, quote, onto, quoted, plain, token_at, find_all}
use excelize.Workbook.Lookup.{behind}

onto-rest :
    (xs : Bytes) (q : Option (Bytes × Bytes)) (n : ℕ)
    → ((t r : Bytes) → q ≡ some (t, r) → length r ≤ n)
    → (t r : Bytes) → onto xs q ≡ some (t, r)
    → length r ≤ n
onto-rest xs none n h t r e = cc
onto-rest xs (some (t', r')) n h t r e =
    let same : r' ≡ r = ap (λ (p : Bytes × Bytes). p.1) (some-injective _ _ e) in
    subst (λ s. length s ≤ n) same (h t' r' refl)

quoted-rest : (s t r : Bytes) → quoted s ≡ some (t, r) → length r ≤ length s
unfolding quoted
quoted-rest [] t r e = cc
quoted-rest (c ∷ []) t r e = by_test (c == quote) e
  where
    by_test :
        (b : Bool)
        → ◌≡◌ {A = Option (Bytes × Bytes)} (if b then some (quote ∷ [], []) else none) (some (t, r))
        → length r ≤ 1
    by_test true e =
        let same : [] ≡ r = ap (λ (p : Bytes × Bytes). p.1) (some-injective _ _ e) in
        subst (λ s. length s ≤ 1) same (omega arith)
    by_test false e = cc
quoted-rest (c ∷ d ∷ s) t r e =
    by_tests (c == quote) (d == quote) (quoted s) (λ t' r' e'. quoted-rest s t' r' e')
      (λ t' r' e'. quoted-rest (d ∷ s) t' r' e') e
  where
    by_tests :
        (a b : Bool) (q : Option (Bytes × Bytes))
        → ((t r : Bytes) → q ≡ some (t, r) → length r ≤ length s)
        → ((t r : Bytes) → quoted (d ∷ s) ≡ some (t, r) → length r ≤ suc (length s))
        → (elim a [
          | false ↦ onto (c ∷ []) (quoted (d ∷ s))
          | true ↦ elim b [
            | false ↦ some (quote ∷ [], d ∷ s)
            | true ↦ elim q [
              | some (token, rest) ↦ some (quote ∷ quote ∷ token, rest)
              | none ↦ some (quote ∷ [], d ∷ s)
            ]
          ]
        ])
          ≡ some (t, r)
        → length r ≤ suc (suc (length s))
    by_tests false b q hs hd e =
        let le = onto-rest (c ∷ []) (quoted (d ∷ s)) (suc (length s)) hd t r e in omega (arith, le)
    by_tests true false q hs hd e =
        subst (λ u. length u ≤ suc (suc (length s)))
          (ap (λ (p : Bytes × Bytes). p.1) (some-injective _ _ e)) (omega arith)
    by_tests true true none hs hd e =
        subst (λ u. length u ≤ suc (suc (length s)))
          (ap (λ (p : Bytes × Bytes). p.1) (some-injective _ _ e)) (omega arith)
    by_tests true true (some (t', r')) hs hd e =
        let le = hs t' r' refl in
        subst (λ u. length u ≤ suc (suc (length s)))
          (ap (λ (p : Bytes × Bytes). p.1) (some-injective _ _ e)) (omega (arith, le))

plain-rest : (s : Bytes) → length (plain s).1 ≤ length s
unfolding plain
plain-rest [] = omega arith
plain-rest (c ∷ s) = by_test (is_space c) (plain-rest s)
  where
    by_test :
        (b : Bool)
        → length (plain s).1 ≤ length s
        → length (if◌then◌else◌ {A = Bytes × Bytes} b ([], c ∷ s) (c ∷ (plain s).0, (plain s).1)).1
          ≤ suc (length s)
    by_test true le = omega arith
    by_test false le = omega (arith, le)

token_at-rest : (c : ℕ) (s : Bytes) → length (token_at c s).1 ≤ length s
token_at-rest c s = by_test (c == quote) (quoted s) (λ t r e. quoted-rest s t r e)
  where
    by_test :
        (b : Bool) (q : Option (Bytes × Bytes))
        → ((t r : Bytes) → q ≡ some (t, r) → length r ≤ length s)
        → length (
            (elim (if b then q else none) as (λ x. Bytes × Bytes) [
              | some (token, rest) ↦ (quote ∷ token, rest)
              | none ↦ (c ∷ (plain s).0, (plain s).1)
            ]).1)
          ≤ length s
    by_test false q h = plain-rest s
    by_test true none h = plain-rest s
    by_test true (some (t, r)) h = h t r refl

-- On as much fuel as the text is long, or more, the tokens do not depend on the fuel: the search ends
-- at the end of the text and not for want of fuel.
pub find_all-fuel :
    (n m : ℕ) (s : Bytes) → length s ≤ n → length s ≤ m → find_all n s ≡ find_all m s
unfolding find_all
find_all-fuel zero zero s h h' = refl
find_all-fuel zero (suc m) [] h h' = refl
find_all-fuel zero (suc m) (c ∷ s) h h' = absurd (omega arith)
find_all-fuel (suc n) zero [] h h' = refl
find_all-fuel (suc n) zero (c ∷ s) h h' = absurd (omega arith)
find_all-fuel (suc n) (suc m) [] h h' = refl
find_all-fuel (suc n) (suc m) (c ∷ s) h h' =
    let le = token_at-rest c s in
    by_space (is_space c) (find_all-fuel n m s (omega arith) (omega arith))
      (find_all-fuel n m (token_at c s).1 (omega (arith, le)) (omega (arith, le)))
  where
    by_space :
        (b : Bool)
        → find_all n s ≡ find_all m s
        → find_all n (token_at c s).1 ≡ find_all m (token_at c s).1
        → (elim b as (λ x. List Bytes) [
          | true ↦ find_all n s
          | false ↦ (token_at c s).0 ∷ find_all n (token_at c s).1
        ])
          ≡ (elim b [
            | true ↦ find_all m s
            | false ↦ (token_at c s).0 ∷ find_all m (token_at c s).1
          ])
    by_space true here behind = here
    by_space false here behind = ap (λ ts. (token_at c s).0 ∷ ts) behind
