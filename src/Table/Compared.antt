-- ===== src/Table/Compared.antt =====
-- What AutoFilter writes for one and for two comparisons, and what it does to the sheet.
use Prim.Native.Nat.{min, max}
use excelize.Common.{
  ℕ, ◌-◌, ◌≤◌, ◌<◌, ◌≡◌, refl, ap, ◌∙◌, Bool, true, false, ◌&&◌, Option, none, some, List, [], ◌∷◌,
  ◌++◌, arith, ◌==◌, if◌then◌else◌, Bytes, codes, Result, ok,
}
use excelize.Common.Int.{ℤ, max_int, pos}
use excelize.Date.Machine.{sub_pos}
use excelize.Merge.Refine.{least-pos, greatest-pos}
use excelize.Options.{
  SheetPr, SheetPrOption, new_sheet_pr, get_sheet_pr_option, code_name_option, calculation_option,
  published_option, fit_to_page_option, auto_page_breaks_option, summary_below_option,
}
use excelize.Parts.{to_lower, contains}
use excelize.Ref.Cell.RoundTrip.{
  cell_name, coordinates_to_cell_name-pos, cell_name_to_coordinates-cell_name,
}
use excelize.Table.Filter.{
  CustomFilter, FilterColumn, FilterSheet, FilterFormat, operator_code, has_wildcard,
  wildcard_operator, filter_token, parse_filter_tokens, conditional, parse_filter_expression,
  operator_name, write_custom_filter, set_and, write_loop, is_default, write_auto_filter,
  filter_column_of, write_filter, filter_area, auto_filter,
}
use excelize.Table.Quoted.{tokens_of-joined}
use excelize.Table.Words.{AllWords, joined}

-- A value that is compared as it stands.
abbrev pub IsValue : Bytes → Type 0
IsValue t =
    (contains (to_lower t) (codes "blanks") ≡ false)
    × (contains (to_lower t) (codes "nonblanks") ≡ false)
    × (has_wildcard t ≡ false)

filter_token-value :
    (expression op t : Bytes) (n : ℕ)
    → operator_code (to_lower op) ≡ some n
    → IsValue t
    → filter_token expression op t ≡ ok (n, t)
unfolding filter_token wildcard_operator
filter_token-value expression op t n e (b, nb, w) =
    rw (e, b, nb, w, filter_token, wildcard_operator) (plain_code n)
  where
    plain_code :
        (n : ℕ)
        → ◌≡◌ {A = Result (ℕ × Bytes)} (ok ((if (n == 2) && false then 22 else n), t)) (ok (n, t))
    plain_code n = ground arith

-- A column with one custom filter, and with two.
abbrev pub with_custom : FilterColumn → Bool → List CustomFilter → FilterColumn
with_custom c both fs = record c {
  custom_filters = some (record { and_both = both; custom_filter = fs });
}

abbrev pub compared : ℕ → Bytes → CustomFilter
compared n t = record { operator = operator_name n; val = t }

write-one :
    (n : ℕ) (t : Bytes) (c : FilterColumn)
    → c.custom_filters ≡ none
    → write_auto_filter (n ∷ []) (t ∷ []) c
      ≡ ok (
          if n == 2
          then record c { filters = some (t ∷ []) }
          else with_custom c false (compared n t ∷ []))
unfolding write_auto_filter write_loop write_custom_filter is_default
write-one n t c e = by_flag (n == 2)
  where
    by_flag :
        (b : Bool)
        → (elim b [
          | true ↦ ok (record c { filters = some (t ∷ []) })
          | false ↦ write_loop 0 (n ∷ []) (t ∷ []) c
        ])
          ≡ ok (
              if b
              then record c { filters = some (t ∷ []) }
              else with_custom c false (compared n t ∷ []))
    by_flag true = refl
    by_flag false = rw e refl

write-two :
    (n k m : ℕ) (t u : Bytes) (c : FilterColumn)
    → c.custom_filters ≡ none
    → write_auto_filter (n ∷ k ∷ m ∷ []) (t ∷ u ∷ []) c
      ≡ ok (
          if (n == 2) && (k == 1) && (m == 2)
          then record c { filters = some (t ∷ u ∷ []) }
          else with_custom c (k == 0) (compared n t ∷ compared m u ∷ []))
unfolding write_auto_filter write_loop write_custom_filter is_default set_and
write-two n k m t u c e = by_flag ((n == 2) && (k == 1) && (m == 2))
  where
    by_flag :
        (b : Bool)
        → (elim b [
          | true ↦ ok (record c { filters = some (t ∷ u ∷ []) })
          | false ↦ write_loop 0 (n ∷ k ∷ m ∷ []) (t ∷ u ∷ []) c
        ])
          ≡ ok (
              if b
              then record c { filters = some (t ∷ u ∷ []) }
              else with_custom c (k == 0) (compared n t ∷ compared m u ∷ []))
    by_flag true = refl
    by_flag false = rw e refl

-- The comparison `x op t`, of words set apart by blanks, lists the value for an equality and is
-- a custom filter for another operator. The value has no wildcard and does not speak of blanks.
filter_column_of-one :
    (x op t : Bytes) (n : ℕ) (c : FilterColumn)
    → AllWords (x ∷ op ∷ t ∷ [])
    → operator_code (to_lower op) ≡ some n
    → IsValue t
    → c.custom_filters ≡ none
    → filter_column_of (joined (x ∷ op ∷ t ∷ [])) c
      ≡ ok (
          if n == 2
          then record c { filters = some (t ∷ []) }
          else with_custom c false (compared n t ∷ []))
unfolding filter_column_of parse_filter_expression parse_filter_tokens
filter_column_of-one x op t n c words e v none_yet =
    let text = joined (x ∷ op ∷ t ∷ []) in
    rw (tokens_of-joined (x ∷ op ∷ t ∷ []) words, filter_token-value text op t n e v)
      (write-one n t c none_yet)

-- Two comparisons `x op t d y op' u`, where d joins them by "or" if it contains `or` or `||`, and by
-- "and" otherwise: two equalities joined by "or" list both values, anything else is two custom
-- filters with the flag of "and".
pub filter_column_of-two :
    (x op t d y op' u : Bytes) (n m : ℕ) (c : FilterColumn)
    → AllWords (x ∷ op ∷ t ∷ d ∷ y ∷ op' ∷ u ∷ [])
    → operator_code (to_lower op) ≡ some n
    → IsValue t
    → operator_code (to_lower op') ≡ some m
    → IsValue u
    → c.custom_filters ≡ none
    → filter_column_of (joined (x ∷ op ∷ t ∷ d ∷ y ∷ op' ∷ u ∷ [])) c
      ≡ ok (
          if (n == 2) && (conditional d == 1) && (m == 2)
          then record c { filters = some (t ∷ u ∷ []) }
          else with_custom c (conditional d == 0) (compared n t ∷ compared m u ∷ []))
unfolding filter_column_of parse_filter_expression parse_filter_tokens
filter_column_of-two x op t d y op' u n m c words e v e' v' none_yet =
    let ts = x ∷ op ∷ t ∷ d ∷ y ∷ op' ∷ u ∷ [] in
    let text = joined ts in
    rw
      (
        tokens_of-joined ts words,
        filter_token-value text op t n e v,
        filter_token-value text op' u m e' v',
      )
      (write-two n (conditional d) m t u c none_yet)

filter_only : Option SheetPr
filter_only = some (record new_sheet_pr { filter_mode = true })

no_options : (k : SheetPrOption) → get_sheet_pr_option k filter_only ≡ get_sheet_pr_option k none
unfolding get_sheet_pr_option filter_only
no_options (code_name_option o) = refl
no_options (calculation_option o) = refl
no_options (published_option o) = refl
no_options (fit_to_page_option o) = refl
no_options (auto_page_breaks_option o) = refl
no_options (summary_below_option o) = refl

written_pr :
    (ref : Bytes) (ref_range col : ℤ) (format : FilterFormat) (x : FilterSheet)
    → (write_filter ref ref_range col format x).0.sheet_pr ≡ filter_only
unfolding write_filter filter_only
written_pr ref ref_range col format x = refl

-- AutoFilter with two good corners leaves the worksheet with no options but the filter mode, whatever
-- options it had: they read as on a worksheet without any.
auto_filter-drops_options :
    (hcell vcell ref : Bytes) (ref_range col : ℤ) (format : FilterFormat) (x : FilterSheet)
    (k : SheetPrOption)
    → filter_area hcell vcell ≡ ok (ref, ref_range, col)
    → get_sheet_pr_option k (auto_filter hcell vcell format x).0.sheet_pr
      ≡ get_sheet_pr_option k none
unfolding auto_filter
auto_filter-drops_options hcell vcell ref ref_range col format x k e =
    rw (e, auto_filter)
      (ap (get_sheet_pr_option k) (written_pr ref ref_range col format x) ∙ no_options k)

-- On cells by their coordinates the area of a filter has the upper left corner first, its width less
-- one, and its first column, whichever two corners are given.
filter_area-corners :
    (c1 r1 c2 r2 : ℕ)
    → 0 < c1
    → 0 < r1
    → 0 < c2
    → 0 < r2
    → c1 ≤ max_int
    → r1 ≤ max_int
    → c2 ≤ max_int
    → r2 ≤ max_int
    → filter_area (cell_name c1 r1) (cell_name c2 r2)
      ≡ ok (
        cell_name (min c1 c2) (min r1 r2) ++ b':' ∷ cell_name (max c1 c2) (max r1 r2),
        pos (max c1 c2 - min c1 c2),
        pos (min c1 c2),
      )
unfolding filter_area
filter_area-corners c1 r1 c2 r2 h1 h2 h3 h4 l1 l2 l3 l4 =
    rw
      (
        cell_name_to_coordinates-cell_name c1 r1 h1 l1 h2 l2,
        cell_name_to_coordinates-cell_name c2 r2 h3 l3 h4 l4,
        least-pos c1 c2,
        least-pos r1 r2,
        greatest-pos c1 c2,
        greatest-pos r1 r2,
        coordinates_to_cell_name-pos (min c1 c2) (min r1 r2) (omega arith) (omega arith),
        coordinates_to_cell_name-pos (max c1 c2) (max r1 r2) (omega arith) (omega arith),
        sub_pos (max c1 c2) (min c1 c2) (omega arith) (omega arith),
      )
      refl
