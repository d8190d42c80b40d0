-- ===== src/Table/Meaning.antt =====
-- What two comparisons of a filter expression mean, described by the operators and the junctions.
use excelize.Common.{
  ℕ, ◌≡◌, refl, ◌∙◌, ◌⊎◌, inl, inr, Bool, true, false, ◌&&◌, ◌||◌, none, some, List, [], ◌∷◌, ◌==◌,
  if◌then◌else◌, Bytes, codes, str_eq, Result, ok,
}
use excelize.Parts.{to_lower, contains}
use excelize.Table.Compared.{IsValue, with_custom, filter_column_of-two}
use excelize.Table.Filter.{
  FilterColumn, operator_code, conditional, operator_name, filter_column_of,
}
use excelize.Table.Words.{AllWords, joined}

pub data Comparison : Type 0 where
  equal : Comparison
  different : Comparison
  less : Comparison
  at_most : Comparison
  greater : Comparison
  at_least : Comparison

-- How an expression spells a comparison, in small letters.
abbrev pub spellings : Comparison → List Bytes
spellings equal = codes "==" ∷ codes "=" ∷ codes "=~" ∷ codes "eq" ∷ []
spellings different = codes "!=" ∷ codes "!~" ∷ codes "ne" ∷ codes "<>" ∷ []
spellings less = codes "<" ∷ []
spellings at_most = codes "<=" ∷ []
spellings greater = codes ">" ∷ []
spellings at_least = codes ">=" ∷ []

-- How the schema of a worksheet names it.
abbrev pub schema_name : Comparison → Bytes
schema_name equal = codes "equal"
schema_name different = codes "notEqual"
schema_name less = codes "lessThan"
schema_name at_most = codes "lessThanOrEqual"
schema_name greater = codes "greaterThan"
schema_name at_least = codes "greaterThanOrEqual"

abbrev pub is_equal : Comparison → Bool
is_equal equal = true
is_equal different = false
is_equal less = false
is_equal at_most = false
is_equal greater = false
is_equal at_least = false

abbrev pub IsOneOf : Bytes → List Bytes → Type 0
IsOneOf s [] = ⊥
IsOneOf s (t ∷ ts) = (s ≡ t) ⊎ IsOneOf s ts

pub data Junction : Type 0 where
  either : Junction
  both : Junction

abbrev pub is_both : Junction → Bool
is_both either = false
is_both both = true

abbrev pub is_either : Junction → Bool
is_either either = true
is_either both = false

-- A word with `or` or `||` in it joins two comparisons as alternatives.
abbrev pub Joins : Junction → Bytes → Type 0
Joins either d = (contains d (codes "or") ≡ true) ⊎ (contains d (codes "||") ≡ true)
Joins both d = (contains d (codes "or") ≡ false) × (contains d (codes "||") ≡ false)

-- Two alternative equalities are a list of values; anything else is two custom filters.
abbrev pub meaning :
    Comparison → Bytes → Junction → Comparison → Bytes → FilterColumn → FilterColumn
meaning p t j q u c =
    if is_equal p && (is_either j) && is_equal q
    then record c { filters = some (t ∷ u ∷ []) }
    else record c {
      custom_filters = some (record {
        and_both = is_both j;
        custom_filter =
            record { operator = schema_name p; val = t }
            ∷ record { operator = schema_name q; val = u }
            ∷ [];
      });
    }

-- The codes of the parser.
abbrev code_of : Comparison → ℕ
code_of equal = 2
code_of different = 5
code_of less = 1
code_of at_most = 3
code_of greater = 4
code_of at_least = 6

operator_code-spelling :
    (p : Comparison) (s : Bytes) → IsOneOf s (spellings p) → operator_code s ≡ some (code_of p)
unfolding operator_code str_eq
operator_code-spelling equal s (inl e) = rw e refl
operator_code-spelling equal s (inr (inl e)) = rw e refl
operator_code-spelling equal s (inr (inr (inl e))) = rw e refl
operator_code-spelling equal s (inr (inr (inr (inl e)))) = rw e refl
operator_code-spelling equal s (inr (inr (inr (inr h)))) = absurd h
operator_code-spelling different s (inl e) = rw e refl
operator_code-spelling different s (inr (inl e)) = rw e refl
operator_code-spelling different s (inr (inr (inl e))) = rw e refl
operator_code-spelling different s (inr (inr (inr (inl e)))) = rw e refl
operator_code-spelling different s (inr (inr (inr (inr h)))) = absurd h
operator_code-spelling less s (inl e) = rw e refl
operator_code-spelling less s (inr h) = absurd h
operator_code-spelling at_most s (inl e) = rw e refl
operator_code-spelling at_most s (inr h) = absurd h
operator_code-spelling greater s (inl e) = rw e refl
operator_code-spelling greater s (inr h) = absurd h
operator_code-spelling at_least s (inl e) = rw e refl
operator_code-spelling at_least s (inr h) = absurd h

operator_name-schema_name : (p : Comparison) → operator_name (code_of p) ≡ schema_name p
unfolding operator_name
operator_name-schema_name equal = refl
operator_name-schema_name different = refl
operator_name-schema_name less = refl
operator_name-schema_name at_most = refl
operator_name-schema_name greater = refl
operator_name-schema_name at_least = refl

code_of-equal : (p : Comparison) → (code_of p == 2) ≡ is_equal p
code_of-equal equal = refl
code_of-equal different = refl
code_of-equal less = refl
code_of-equal at_most = refl
code_of-equal greater = refl
code_of-equal at_least = refl

conditional-Joins :
    (j : Junction) (d : Bytes) → Joins j d → conditional d ≡ (if is_either j then 1 else 0)
conditional-Joins either d (inl e) = rw e refl
conditional-Joins either d (inr e) = by_test (contains d (codes "or"))
  where
    by_test : (t : Bool) → ◌≡◌ {A = ℕ} (if t || contains d (codes "||") then 1 else 0) 1
    by_test true = refl
    by_test false = rw e refl
conditional-Joins both d (e, e') = rw (e, e') refl

-- A filter expression of two comparisons, joined by a word with `or` or `||` in it, or by another one:
-- two alternative equalities list both values, anything else is two custom filters under the names of
-- the schema, with the flag for "and" unless they are alternatives. The words are set apart by blanks
-- and do not begin with a quote; the values have no wildcard and do not speak of blanks.
pub filter_column_of-meaning :
    (x op t d y op' u : Bytes) (p q : Comparison) (j : Junction) (c : FilterColumn)
    → AllWords (x ∷ op ∷ t ∷ d ∷ y ∷ op' ∷ u ∷ [])
    → IsOneOf (to_lower op) (spellings p)
    → IsValue t
    → Joins j d
    → IsOneOf (to_lower op') (spellings q)
    → IsValue u
    → c.custom_filters ≡ none
    → filter_column_of (joined (x ∷ op ∷ t ∷ d ∷ y ∷ op' ∷ u ∷ [])) c ≡ ok (meaning p t j q u c)
filter_column_of-meaning x op t d y op' u p q j c words h v hd h' v' none_yet =
    filter_column_of-two x op t d y op' u (code_of p) (code_of q) c words
      (operator_code-spelling p (to_lower op) h) v (operator_code-spelling q (to_lower op') h') v'
      none_yet
    ∙ rw
        (
          conditional-Joins j d hd,
          code_of-equal p,
          code_of-equal q,
          operator_name-schema_name p,
          operator_name-schema_name q,
        )
        (by_junction j)
  where
    by_junction :
        (j : Junction)
        → ◌≡◌ {A = Result FilterColumn}
            (ok (
              if is_equal p && ((if is_either j then 1 else 0) == 1) && is_equal q
              then record c { filters = some (t ∷ u ∷ []) }
              else with_custom c ((if is_either j then 1 else 0) == 0) (
                  record { operator = schema_name p; val = t }
                  ∷ record { operator = schema_name q; val = u }
                  ∷ [])))
            (ok (meaning p t j q u c))
    by_junction either = refl
    by_junction both = refl
