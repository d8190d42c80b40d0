-- ===== src/Table/Written.antt =====
-- What a filter column holds behind a filter expression.
use excelize.Common.{
  ℕ, zero, suc, ◌≤◌, ◌<◌, ◌≡◌, refl, ◌⊎◌, inl, inr, Bool, true, not, ◌&&◌, ◌||◌, Option, none, some,
  List, [], ◌∷◌, arith, ◌==◌, if◌then◌else◌, Bool-cases, length, Bytes, codes, str_eq, Result,
  ◌>>=◌, incorrect_number_of_tokens, unknown_operator, not_valid_for_blanks, ok, err, fault,
}
use excelize.Parts.{to_lower, contains}
use excelize.Table.Filter.{
  CustomFilter, CustomFilters, FilterColumn, operator_code, blanks_token, wildcard_operator,
  filter_token, parse_filter_tokens, conditional, parse_filter_expression, operator_name,
  write_custom_filter, set_and, write_loop, is_default, write_auto_filter, filter_column_of,
}
use excelize.Table.Tokens.{tokens_of}

-- A predicate on what a call returns: it may return an error, but does not panic.
abbrev pub OnOk {ℓ} : {A : Type ℓ} → (A → Type 0) → Result A → Type 0
OnOk P (ok a) = P a
OnOk P (err e) = Unit
OnOk P fault = ⊥

-- The operators of the schema of a custom filter.
abbrev pub is_schema_operator : Bytes → Bool
is_schema_operator s =
    str_eq s (codes "lessThan")
    || str_eq s (codes "equal")
    || str_eq s (codes "lessThanOrEqual")
    || str_eq s (codes "greaterThan")
    || str_eq s (codes "notEqual")
    || str_eq s (codes "greaterThanOrEqual")

abbrev pub AllSchema : List CustomFilter → Type 0
AllSchema [] = Unit
AllSchema (f ∷ fs) = (is_schema_operator f.operator ≡ true) × AllSchema fs

-- One or two values and no custom filter, or one or two custom filters and no values.
abbrev pub IsWritten : FilterColumn → Type 0
IsWritten c =
    ((values : List Bytes) × (c.filters ≡ some values)
      × (c.custom_filters ≡ none)
      × (0 < length values)
      × (length values ≤ 2))
    ⊎ ((x : CustomFilters) × (c.filters ≡ none)
        × (c.custom_filters ≡ some x)
        × (0 < length x.custom_filter)
        × (length x.custom_filter ≤ 2)
        × AllSchema x.custom_filter)

-- The operators that the parser returns.
abbrev pub IsOperator : ℕ → Type 0
IsOperator n = ((0 < n) × (n ≤ 6)) ⊎ (n ≡ 22)

operator_name-schema : (n : ℕ) → IsOperator n → is_schema_operator (operator_name n) ≡ true
unfolding operator_name str_eq
operator_name-schema n (inr e) = rw e refl
operator_name-schema (suc zero) h = refl
operator_name-schema (suc (suc zero)) h = refl
operator_name-schema (suc (suc (suc zero))) h = refl
operator_name-schema (suc (suc (suc (suc zero)))) h = refl
operator_name-schema (suc (suc (suc (suc (suc zero))))) h = refl
operator_name-schema (suc (suc (suc (suc (suc (suc zero)))))) h = refl
operator_name-schema zero (inl h) = absurd (omega arith)
operator_name-schema (suc (suc (suc (suc (suc (suc (suc n))))))) (inl h) = absurd (omega arith)

operator_code-IsOperator : (s : Bytes) (n : ℕ) → operator_code s ≡ some n → IsOperator n
unfolding operator_code
operator_code-IsOperator s n h = ground arith

blanks_token-IsOperator : (n : ℕ) (t : Bytes) → IsOperator n → IsOperator (blanks_token n t).0
unfolding blanks_token
blanks_token-IsOperator n t h = ground arith

wildcard_operator-IsOperator : (r : ℕ × Bytes) → IsOperator r.0 → IsOperator (wildcard_operator r).0
unfolding wildcard_operator
wildcard_operator-IsOperator (n, t) h = ground arith

filter_token-IsOperator :
    (expression op token : Bytes) → OnOk (λ r. IsOperator r.0) (filter_token expression op token)
unfolding filter_token
filter_token-IsOperator expression op token = by_code (operator_code (to_lower op)) refl
  where
    by_code :
        (o : Option ℕ)
        → operator_code (to_lower op) ≡ o
        → OnOk
            (λ r. IsOperator r.0)
            (elim o [
              | none ↦ err (unknown_operator op)
              | some operator ↦
                  if contains (to_lower token) (codes "blanks")
                    || contains (to_lower token) (codes "nonblanks")
                  then (if not (operator == 2) && not (operator == 5)
                      then err (not_valid_for_blanks op expression)
                      else ok (wildcard_operator (blanks_token operator (to_lower token))))
                  else ok (wildcard_operator (operator, token))
            ])
    by_code none e = tt
    by_code (some n) e =
        let is = operator_code-IsOperator (to_lower op) n e in
        elim (Bool-cases (
          contains (to_lower token) (codes "blanks")
          || contains (to_lower token) (codes "nonblanks"))) [
            | inl b ↦ elim (Bool-cases (not (n == 2) && not (n == 5))) [
              | inl r ↦ rw (b, r) tt
              | inr r ↦
                  rw (b, r)
                    (wildcard_operator-IsOperator (blanks_token n (to_lower token))
                      (blanks_token-IsOperator n (to_lower token) is))
            ]
            | inr b ↦ rw b (wildcard_operator-IsOperator (n, token) is)
          ]

-- The loop over one token and over two.
write_one :
    (a : ℕ) (t : Bytes) (c : FilterColumn)
    → IsOperator a
    → c.filters ≡ none
    → c.custom_filters ≡ none
    → OnOk IsWritten (write_auto_filter (a ∷ []) (t ∷ []) c)
unfolding write_auto_filter write_loop write_custom_filter is_default
write_one a t c is e e' = elim (Bool-cases (a == 2)) [
  | inl h ↦ rw (h, OnOk) (inl (t ∷ [], refl, e', omega arith, omega arith))
  | inr h ↦
      rw (h, e', OnOk) (inr (_, e, refl, omega arith, omega arith, (operator_name-schema a is, tt)))
]

write_two :
    (a k b : ℕ) (t u : Bytes) (c : FilterColumn)
    → IsOperator a
    → IsOperator b
    → c.filters ≡ none
    → c.custom_filters ≡ none
    → OnOk IsWritten (write_auto_filter (a ∷ k ∷ b ∷ []) (t ∷ u ∷ []) c)
unfolding write_auto_filter write_loop write_custom_filter is_default set_and
write_two a k b t u c is js e e' = elim (Bool-cases ((a == 2) && (k == 1) && (b == 2))) [
  | inl h ↦ rw (h, OnOk) (inl (t ∷ u ∷ [], refl, e', omega arith, omega arith))
  | inr h ↦
      rw (h, e', OnOk)
        (inr (
          _,
          e,
          refl,
          omega arith,
          omega arith,
          (operator_name-schema a is, (operator_name-schema b js, tt)),
        ))
]

abbrev written : Result (List ℕ × List Bytes) → FilterColumn → Result FilterColumn
written r c = r >>= λ x. write_auto_filter x.0 x.1 c

abbrev single : Result (ℕ × Bytes) → Result (List ℕ × List Bytes)
single r = r >>= λ x. ok (x.0 ∷ [], x.1 ∷ [])

abbrev double : ℕ → Result (ℕ × Bytes) → Result (ℕ × Bytes) → Result (List ℕ × List Bytes)
double k r s = r >>= λ x. s >>= λ y. ok (x.0 ∷ k ∷ y.0 ∷ [], x.1 ∷ y.1 ∷ [])

written-single :
    (r : Result (ℕ × Bytes)) (c : FilterColumn)
    → c.filters ≡ none
    → c.custom_filters ≡ none
    → OnOk (λ x. IsOperator x.0) r
    → OnOk IsWritten (written (single r) c)
written-single (ok (n, t)) c e e' is = write_one n t c is e e'
written-single (err x) c e e' is = tt
written-single fault c e e' is = absurd is

written-double :
    (k : ℕ) (r s : Result (ℕ × Bytes)) (c : FilterColumn)
    → c.filters ≡ none
    → c.custom_filters ≡ none
    → OnOk (λ x. IsOperator x.0) r
    → OnOk (λ x. IsOperator x.0) s
    → OnOk IsWritten (written (double k r s) c)
written-double k (ok (n, t)) (ok (m, u)) c e e' is js = write_two n k m t u c is js e e'
written-double k (ok x) (err y) c e e' is js = tt
written-double k (ok x) fault c e e' is js = absurd js
written-double k (err x) s c e e' is js = tt
written-double k fault s c e e' is js = absurd is

written-three :
    (expression : Bytes) (ts : List Bytes) (c : FilterColumn)
    → c.filters ≡ none
    → c.custom_filters ≡ none
    → length ts ≡ 3
    → OnOk IsWritten (written (parse_filter_expression expression ts) c)
unfolding parse_filter_expression parse_filter_tokens
written-three expression [] c e e' h = absurd (omega arith)
written-three expression (t0 ∷ []) c e e' h = absurd (omega arith)
written-three expression (t0 ∷ op ∷ []) c e e' h = absurd (omega arith)
written-three expression (t0 ∷ op ∷ t ∷ []) c e e' h =
    written-single (filter_token expression op t) c e e' (filter_token-IsOperator expression op t)
written-three expression (t0 ∷ op ∷ t ∷ u ∷ ts) c e e' h = absurd (omega arith)

written-seven :
    (expression : Bytes) (ts : List Bytes) (c : FilterColumn)
    → c.filters ≡ none
    → c.custom_filters ≡ none
    → length ts ≡ 7
    → OnOk IsWritten (written (parse_filter_expression expression ts) c)
unfolding parse_filter_expression parse_filter_tokens
written-seven expression (t0 ∷ op ∷ t ∷ d ∷ t1 ∷ op' ∷ u ∷ []) c e e' h =
    written-double (conditional d) (filter_token expression op t) (filter_token expression op' u) c
      e e' (filter_token-IsOperator expression op t) (filter_token-IsOperator expression op' u)
written-seven expression ts c e e' h = absurd (omega arith)

-- A filter expression is written or refused, without a panic: where it is written, the column lists one
-- or two values, or one or two comparisons by operators of the schema. It has three or seven tokens, or
-- it is refused for their number.
pub filter_column_of-IsWritten :
    (expression : Bytes) (c : FilterColumn)
    → c.filters ≡ none
    → c.custom_filters ≡ none
    → OnOk IsWritten (filter_column_of expression c)
      × ((length (tokens_of expression) ≡ 3)
          ⊎ (length (tokens_of expression) ≡ 7)
          ⊎ (filter_column_of expression c ≡ err (incorrect_number_of_tokens expression)))
unfolding filter_column_of
filter_column_of-IsWritten expression c e e' =
    let tokens = tokens_of expression in
    elim (Bool-cases (length tokens == 3)) [
      | inl h ↦ (
        rw (h, OnOk) (written-three expression tokens c e e' (ground (arith, h))),
        inl (ground (arith, h)),
      )
      | inr h ↦ elim (Bool-cases (length tokens == 7)) [
        | inl h' ↦ (
          rw (h, h', OnOk) (written-seven expression tokens c e e' (ground (arith, h'))),
          inr (inl (ground (arith, h'))),
        )
        | inr h' ↦ (rw (h, h', OnOk) tt, inr (inr (rw (h, h') refl)))
      ]
    ]
