-- ===== src/Table/Filter.antt =====
-- AutoFilter and what it calls (table.go), on the fields of the worksheet that it writes.
use excelize.Common.{
  ℕ, suc, Bool, true, false, not, ◌&&◌, ◌||◌, Option, none, some, List, [], ◌∷◌, ◌++◌, ◌==◌,
  if◌then◌else◌, length, get_elem?, Bytes, codes, str_eq, Result, ◌>>=◌, incorrect_column_index,
  incorrect_number_of_tokens, unknown_operator, not_valid_for_blanks, ok, err, fault,
}
use excelize.Common.Int.{ℤ, ◌-ℤ◌, ltb_ℤ, pos}
use excelize.Merge.{least, greatest}
use excelize.Options.{SheetPr, new_sheet_pr}
use excelize.Parts.{to_lower, contains}
use excelize.Ref.Cell.{cell_name_to_coordinates, coordinates_to_cell_name}
use excelize.Ref.Column.{column_name_to_number}
use excelize.Table.Tokens.{tokens_of}

pub record CustomFilter : Type 0 where
  pub operator : Bytes
  pub val : Bytes

pub record CustomFilters : Type 0 where
  pub and_both : Bool
  pub custom_filter : List CustomFilter

pub record FilterColumn : Type 0 where
  pub col_id : ℤ
  pub custom_filters : Option CustomFilters
  pub filters : Option (List Bytes)

pub record SheetFilter : Type 0 where
  pub ref : Bytes
  pub filter_column : Option FilterColumn

pub record FilterSheet : Type 0 where
  pub sheet_pr : Option SheetPr
  pub auto_filter : Option SheetFilter

-- What parseAutoFilterSet reads from the JSON text of the format.
pub record FilterFormat : Type 0 where
  pub column : Bytes
  pub expression : Bytes

-- The map `operators` of parseFilterTokens.
unfoldable pub operator_code : Bytes → Option ℕ
unfolding str_eq
operator_code s =
    if str_eq s (codes "==")
      || str_eq s (codes "=")
      || str_eq s (codes "=~")
      || str_eq s (codes "eq")
    then some 2
    else if str_eq s (codes "!=")
        || str_eq s (codes "!~")
        || str_eq s (codes "ne")
        || str_eq s (codes "<>")
    then some 5
    else if str_eq s (codes "<")
    then some 1
    else if str_eq s (codes "<=")
    then some 3
    else if str_eq s (codes ">")
    then some 4
    else if str_eq s (codes ">=")
    then some 6
    else none

-- A match of `[*?]`.
unfoldable pub has_wildcard : Bytes → Bool
has_wildcard [] = false
has_wildcard (c ∷ s) = (c == b'*') || (c == b'?') || has_wildcard s

-- The special handling of Blanks and NonBlanks; the token is in lower case.
unfoldable pub blanks_token : ℕ → Bytes → ℕ × Bytes
unfolding str_eq
blanks_token operator token =
    if str_eq token (codes "blanks")
    then (if operator == 5 then (operator, codes " ") else (operator, token))
    else if operator == 5
    then (2, codes "blanks")
    else (5, codes " ")

unfoldable pub wildcard_operator : ℕ × Bytes → ℕ × Bytes
unfolding has_wildcard
wildcard_operator (operator, token) =
    (if (operator == 2) && has_wildcard token then 22 else operator, token)

unfoldable pub filter_token : Bytes → Bytes → Bytes → Result (ℕ × Bytes)
unfolding operator_code contains blanks_token wildcard_operator
filter_token expression op token = elim (operator_code (to_lower op)) [
  | none ↦ err (unknown_operator op)
  | some operator ↦
      if contains (to_lower token) (codes "blanks") || contains (to_lower token) (codes "nonblanks")
      then (if not (operator == 2) && not (operator == 5)
          then err (not_valid_for_blanks op expression)
          else ok (wildcard_operator (blanks_token operator (to_lower token))))
      else ok (wildcard_operator (operator, token))
]

-- parseFilterTokens: without a second or a third token the code panics.
unfoldable pub parse_filter_tokens : Bytes → List Bytes → Result (ℕ × Bytes)
unfolding filter_token
parse_filter_tokens expression (t0 ∷ op ∷ token ∷ ts) = filter_token expression op token
parse_filter_tokens expression (t0 ∷ op ∷ []) = elim (operator_code (to_lower op)) [
  | none ↦ err (unknown_operator op)
  | some operator ↦ fault
]
parse_filter_tokens expression (t0 ∷ []) = fault
parse_filter_tokens expression [] = fault

abbrev pub conditional : Bytes → ℕ
conditional c = if contains c (codes "or") || contains c (codes "||") then 1 else 0

unfoldable pub parse_filter_expression : Bytes → List Bytes → Result (List ℕ × List Bytes)
unfolding parse_filter_tokens contains
parse_filter_expression expression (a ∷ b ∷ c ∷ d ∷ e ∷ f ∷ g ∷ []) = do
  x ← parse_filter_tokens expression (a ∷ b ∷ c ∷ [])
  y ← parse_filter_tokens expression (e ∷ f ∷ g ∷ [])
  ok (x.0 ∷ conditional d ∷ y.0 ∷ [], x.1 ∷ y.1 ∷ [])
parse_filter_expression expression tokens = do
  x ← parse_filter_tokens expression tokens
  ok (x.0 ∷ [], x.1 ∷ [])

-- The map `operators` of writeCustomFilter.
unfoldable pub operator_name : ℕ → Bytes
operator_name n =
    if n == 1
    then codes "lessThan"
    else if (n == 2) || (n == 22)
    then codes "equal"
    else if n == 3
    then codes "lessThanOrEqual"
    else if n == 4
    then codes "greaterThan"
    else if n == 5
    then codes "notEqual"
    else if n == 6
    then codes "greaterThanOrEqual"
    else []

unfoldable pub write_custom_filter : ℕ → Bytes → FilterColumn → FilterColumn
unfolding operator_name
write_custom_filter operator val c =
    let new : CustomFilter = record { operator = operator_name operator; val = val } in
    record c {
      custom_filters = some (elim c.custom_filters [
        | none ↦ record { and_both = false; custom_filter = new ∷ [] }
        | some x ↦ record x { custom_filter = x.custom_filter ++ new ∷ [] }
      ]);
    }

-- The map `expRel`.
abbrev pub exp_rel : ℕ → ℕ
exp_rel k = if k == 1 then 2 else 0

-- The map `andRel`.
abbrev pub and_rel : ℕ → Bool
and_rel e = e == 0

unfoldable pub set_and : Option ℕ → FilterColumn → Result FilterColumn
set_and none c = fault
set_and (some e) c = elim c.custom_filters [
  | none ↦ fault
  | some x ↦ ok (record c { custom_filters = some (record x { and_both = and_rel e }) })
]

unfoldable pub write_loop : ℕ → List ℕ → List Bytes → FilterColumn → Result FilterColumn
unfolding write_custom_filter set_and
write_loop k exp [] c = ok c
write_loop k exp (v ∷ tokens) c = elim (get_elem? exp (exp_rel k)) [
  | none ↦ fault
  | some operator ↦
      (elim (k == 1) [
        | true ↦ set_and (get_elem? exp k) (write_custom_filter operator v c)
        | false ↦ ok (write_custom_filter operator v c)
      ])
      >>= write_loop (suc k) exp tokens
]

unfoldable pub is_default : List ℕ → Bool
is_default (a ∷ []) = a == 2
is_default (a ∷ b ∷ c ∷ []) = (a == 2) && (b == 1) && (c == 2)
is_default exp = false

-- Values are listed for one equality, or for two with "or".
unfoldable pub write_auto_filter : List ℕ → List Bytes → FilterColumn → Result FilterColumn
unfolding write_loop is_default
write_auto_filter exp tokens c = elim (is_default exp) [
  | true ↦ ok (record c { filters = some tokens })
  | false ↦ write_loop 0 exp tokens c
]

-- The column that the format names, without its filter.
unfoldable pub filter_offset : ℤ → ℤ → Bytes → Result FilterColumn
unfolding column_name_to_number
filter_offset ref_range col column = do
  fs_col ← column_name_to_number column
  let offset = fs_col -ℤ col
  if ltb_ℤ offset (pos 0) || ltb_ℤ ref_range offset
      then err (incorrect_column_index column)
      else ok (record { col_id = offset; custom_filters = none; filters = none })

unfoldable pub filter_column_of : Bytes → FilterColumn → Result FilterColumn
unfolding tokens_of parse_filter_expression write_auto_filter
filter_column_of expression c =
    let tokens = tokens_of expression in
    if not (length tokens == 3) && not (length tokens == 7)
    then err (incorrect_number_of_tokens expression)
    else (parse_filter_expression expression tokens >>= λ r. write_auto_filter r.0 r.1 c)

-- The filter column that autoFilter leaves, also where it returns an error.
unfoldable pub column_result : ℤ → ℤ → FilterFormat → Option FilterColumn × Result (Unit {0})
unfolding filter_offset filter_column_of str_eq
column_result ref_range col format =
    if str_eq format.column [] || str_eq format.expression []
    then (none, ok tt)
    else elim (filter_offset ref_range col format.column) [
      | err e ↦ (none, err e)
      | fault ↦ (none, fault)
      | ok c ↦ elim (filter_column_of format.expression c) [
        | err e ↦ (some c, err e)
        | fault ↦ (some c, fault)
        | ok c' ↦ (some c', ok tt)
      ]
    ]

-- autoFilter behind workSheetReader. The sheet is written before the format is looked at, so it
-- comes back also with an error.
unfoldable pub write_filter :
    Bytes → ℤ → ℤ → FilterFormat → FilterSheet → FilterSheet × Result (Unit {0})
unfolding column_result
write_filter ref ref_range col format x =
    let (filter_column, result) = column_result ref_range col format in
    (
      record x {
        sheet_pr = some (record new_sheet_pr { filter_mode = true });
        auto_filter = some (record { ref = ref; filter_column = filter_column });
      },
      result,
    )

-- The area in its ordered form, its width less one and its first column.
unfoldable pub filter_area : Bytes → Bytes → Result (Bytes × ℤ × ℤ)
filter_area hcell vcell = do
  h ← cell_name_to_coordinates hcell
  v ← cell_name_to_coordinates vcell
  start ← coordinates_to_cell_name (least h.0 v.0) (least h.1 v.1)
  end ← coordinates_to_cell_name (greatest h.0 v.0) (greatest h.1 v.1)
  ok (start ++ b':' ∷ end, greatest h.0 v.0 -ℤ least h.0 v.0, least h.0 v.0)

unfoldable pub auto_filter :
    Bytes → Bytes → FilterFormat → FilterSheet → FilterSheet × Result (Unit {0})
unfolding write_filter filter_area
auto_filter hcell vcell format x = elim (filter_area hcell vcell) [
  | err e ↦ (x, err e)
  | fault ↦ (x, fault)
  | ok (ref, ref_range, col) ↦ write_filter ref ref_range col format x
]
