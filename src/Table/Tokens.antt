-- ===== src/Table/Tokens.antt =====
-- The tokens of a filter expression: the matches of the regular expression "(?:[^"]|"")*"|\S+
-- in autoFilter (table.go), leftmost and with the first alternative preferred.
use excelize.Common.{
  ℕ, zero, suc, Bool, true, false, ◌||◌, Option, none, some, List, [], ◌∷◌, ◌++◌, ◌==◌,
  if◌then◌else◌, length, Bytes,
}

-- What `\s` matches.
unfoldable pub is_space : ℕ → Bool
is_space c = (c == 9) || (c == 10) || (c == 12) || (c == 13) || (c == 32)

abbrev pub quote : ℕ
quote = 34

abbrev pub onto {ℓ} : {A : Type ℓ} → List A → Option (List A × List A) → Option (List A × List A)
onto xs none = none
onto xs (some (token, rest)) = some (xs ++ token, rest)

-- Behind an opening quote: two quotes stand for one where a closing quote still follows them.
unfoldable pub quoted : Bytes → Option (Bytes × Bytes)
quoted [] = none
quoted (c ∷ []) = if c == quote then some (quote ∷ [], []) else none
quoted (c ∷ d ∷ s) = elim (c == quote) [
  | false ↦ onto (c ∷ []) (quoted (d ∷ s))
  | true ↦ elim (d == quote) [
    | false ↦ some (quote ∷ [], d ∷ s)
    | true ↦ elim (quoted s) [
      | some (token, rest) ↦ some (quote ∷ quote ∷ token, rest)
      | none ↦ some (quote ∷ [], d ∷ s)
    ]
  ]
]

-- The longest run of other bytes, and what follows it.
unfoldable pub plain : Bytes → Bytes × Bytes
unfolding is_space
plain [] = ([], [])
plain (c ∷ s) = let (token, rest) = plain s in if is_space c then ([], c ∷ s) else (c ∷ token, rest)

abbrev pub token_at : ℕ → Bytes → Bytes × Bytes
token_at c s = elim (if c == quote then quoted s else none) [
  | some (token, rest) ↦ (quote ∷ token, rest)
  | none ↦ (c ∷ (plain s).0, (plain s).1)
]

unfoldable pub find_all : ℕ → Bytes → List Bytes
unfolding is_space quoted plain
find_all zero s = []
find_all (suc n) [] = []
find_all (suc n) (c ∷ s) = elim (is_space c) [
  | true ↦ find_all n s
  | false ↦ (token_at c s).0 ∷ find_all n (token_at c s).1
]

-- Each round reads at least one byte.
unfoldable pub tokens_of : Bytes → List Bytes
unfolding find_all
tokens_of s = find_all (length s) s
