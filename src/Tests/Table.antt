-- ===== src/Tests/Table.antt =====
-- Filter expressions at concrete inputs.
use excelize.Common.{
  ◌≡◌, refl, ◌⊎◌, inl, inr, false, none, some, List, [], ◌∷◌, arith, length, Bytes, codes,
  incorrect_number_of_tokens, ok, err,
}
use excelize.Common.Int.{pos}
use excelize.Parts.{contains}
use excelize.Table.Filter.{FilterColumn, has_wildcard, filter_column_of}
use excelize.Table.Fuel.{find_all-fuel}
use excelize.Table.Meaning.{filter_column_of-meaning, equal, less, either}
use excelize.Table.Quoted.{tokens_of-quoted}
use excelize.Table.Tokens.{is_space, find_all, tokens_of}
use excelize.Table.Words.{AllWords, joined}
use excelize.Table.Written.{OnOk, IsWritten, filter_column_of-IsWritten}

abbrev empty_column : FilterColumn
empty_column = record { col_id = pos 1; custom_filters = none; filters = none }

abbrev between : Bytes
between =
    joined (
      codes "x"
      ∷ codes ">"
      ∷ codes "2000"
      ∷ codes "and"
      ∷ codes "x"
      ∷ codes "<"
      ∷ codes "5000"
      ∷ [])

abbrev chosen : Bytes
chosen =
    joined
      (codes "x" ∷ codes "<" ∷ codes "20" ∷ codes "||" ∷ codes "x" ∷ codes "EQ" ∷ codes "50" ∷ [])

chosen-AllWords :
    AllWords
      (codes "x" ∷ codes "<" ∷ codes "20" ∷ codes "||" ∷ codes "x" ∷ codes "EQ" ∷ codes "50" ∷ [])
unfolding is_space
chosen-AllWords = (
  (refl, refl, tt),
  (
    (refl, refl, tt),
    (
      (refl, refl, (refl, tt)),
      (
        (refl, refl, (refl, tt)),
        ((refl, refl, tt), ((refl, refl, (refl, tt)), ((refl, refl, (refl, tt)), tt))),
      ),
    ),
  ),
)

filter_column_of-IsWritten_example :
    OnOk IsWritten (filter_column_of between empty_column)
    × ((length (tokens_of between) ≡ 3)
        ⊎ (length (tokens_of between) ≡ 7)
        ⊎ (filter_column_of between empty_column ≡ err (incorrect_number_of_tokens between)))
filter_column_of-IsWritten_example = filter_column_of-IsWritten between empty_column refl refl

-- Five tokens.
five_tokens :
    filter_column_of (codes "x > 2000 and x") empty_column
    ≡ err (incorrect_number_of_tokens (codes "x > 2000 and x"))
unfolding filter_column_of
five_tokens = refl

filter_column_of-meaning_example :
    filter_column_of chosen empty_column
    ≡ ok (record empty_column {
      custom_filters = some (record {
        and_both = false;
        custom_filter =
            record { operator = codes "lessThan"; val = codes "20" }
            ∷ record { operator = codes "equal"; val = codes "50" }
            ∷ [];
      });
    })
unfolding contains has_wildcard
filter_column_of-meaning_example =
    filter_column_of-meaning (codes "x") (codes "<") (codes "20") (codes "||") (codes "x")
      (codes "EQ") (codes "50") less equal either empty_column chosen-AllWords (inl refl)
      (refl, refl, refl) (inr refl) (inr (inr (inr (inl refl)))) (refl, refl, refl) refl

-- A value with a blank in it.
abbrev with_quotes : List Bytes
with_quotes = codes "x" ∷ codes "==" ∷ codes "\"a b\"" ∷ []

tokens_of-quoted_example : tokens_of (codes "x == \"a b\"") ≡ with_quotes
unfolding is_space
tokens_of-quoted_example = tokens_of-quoted with_quotes (
  inl (refl, refl, tt),
  (inl (refl, refl, (refl, tt)), (inr (codes "a b", refl, (refl, (refl, (refl, tt)))), tt)),
)

more_fuel : find_all 40 between ≡ find_all 50 between
more_fuel = find_all-fuel 40 50 between (omega arith) (omega arith)
