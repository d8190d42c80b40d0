-- ===== src/Validation.antt =====
-- Data validation objects (datavalidation.go): SetError, SetInput, SetDropList, SetRange,
-- SetSqrefDropList and SetSqref.
use excelize.Common.{
  ℕ, ◌+◌, ◌≤◌, ◌≡◌, ap, ◌∙◌, Bool, true, false, ◌||◌, Option, none, some, List, [], ◌∷◌, ◌++◌,
  arith, ltb, if◌then◌else◌, length, length-append, Bytes, codes, str_eq,
}
use excelize.Common.Int.{ℤ, eqb_ℤ, pos}
use excelize.Ref.Decimal.{itoa}
use excelize.Sheet.Data.{index?}

pub record DataValidation : Type 0 where
  pub allow_blank : Bool
  pub show_error_message : Bool
  pub show_input_message : Bool
  pub show_drop_down : Bool
  pub error_msg : Option Bytes
  pub error_title : Option Bytes
  pub error_style : Option Bytes
  pub prompt_title : Option Bytes
  pub prompt : Option Bytes
  pub formula1 : Bytes
  pub formula2 : Bytes
  pub t : Bytes
  pub operator : Bytes
  pub sqref : Bytes

pub data ValidationError : Type 0 where
  formula_too_long : ValidationError
  cross_sheet_sqref : ValidationError

-- The changed object, or the error.
pub data Validated : Type 0 where
  valid : DataValidation → Validated
  refused : ValidationError → Validated

abbrev pub and_then : Validated → (DataValidation → Validated) → Validated
and_then (valid dd) f = f dd
and_then (refused e) f = refused e

unfoldable pub new_data_validation : Bool → DataValidation
new_data_validation blank = record {
  allow_blank = blank;
  show_error_message = false;
  show_input_message = false;
  show_drop_down = false;
  error_msg = none;
  error_title = none;
  error_style = none;
  prompt_title = none;
  prompt = none;
  formula1 = [];
  formula2 = [];
  t = [];
  operator = [];
  sqref = [];
}

abbrev pub style_text : ℤ → Bytes
style_text style =
    if eqb_ℤ style (pos 2)
    then codes "warning"
    else if eqb_ℤ style (pos 3)
    then codes "information"
    else codes "stop"

unfoldable pub set_error : ℤ → Bytes → Bytes → DataValidation → DataValidation
set_error style title msg dd = record dd {
  error_msg = some msg;
  error_title = some title;
  show_error_message = true;
  error_style = some (style_text style);
}

unfoldable pub set_input : Bytes → Bytes → DataValidation → DataValidation
set_input title msg dd = record dd {
  show_input_message = true;
  prompt_title = some title;
  prompt = some msg;
}

-- The maps of the conversions, as tables from the key 0 on; a missing key gives the empty text.
abbrev pub text_at : List Bytes → ℤ → Bytes
text_at table key = elim (index? table key) [ none ↦ [] | some s ↦ s ]

abbrev pub conv_data_validation_type : ℤ → Bytes
conv_data_validation_type = text_at (
    []
    ∷ codes "none"
    ∷ codes "custom"
    ∷ codes "date"
    ∷ codes "decimal"
    ∷ codes "list"
    ∷ codes "textLength"
    ∷ codes "time"
    ∷ codes "whole"
    ∷ [])

abbrev pub conv_data_validation_operatior : ℤ → Bytes
conv_data_validation_operatior = text_at (
    []
    ∷ codes "between"
    ∷ codes "equal"
    ∷ codes "greaterThan"
    ∷ codes "greaterThanOrEqual"
    ∷ codes "lessThan"
    ∷ codes "lessThanOrEqual"
    ∷ codes "notBetween"
    ∷ codes "notEqual"
    ∷ [])

-- `strings.Join(keys, ",")`.
unfoldable pub join_keys : List Bytes → Bytes
join_keys [] = []
join_keys (s ∷ []) = s
join_keys (s ∷ s' ∷ ss) = s ++ b',' ∷ join_keys (s' ∷ ss)

abbrev pub data_validation_formula_str_len : ℕ
data_validation_formula_str_len = 257

abbrev pub tagged : Bytes → Bytes → Bytes → Bytes
tagged before s after = before ++ (s ++ after)

unfoldable pub set_drop_list : List Bytes → DataValidation → Validated
unfolding join_keys
set_drop_list keys dd =
    let formula = 34 ∷ join_keys keys ++ 34 ∷ [] in
    if ltb data_validation_formula_str_len (length formula)
    then refused formula_too_long
    else valid (record dd {
      formula1 = tagged (codes "<formula1>") formula (codes "</formula1>");
      t = conv_data_validation_type (pos 5);
    })

-- The guard is on the formulas that are there, not on those that are written.
unfoldable pub set_range : ℤ → ℤ → ℤ → ℤ → DataValidation → Validated
set_range f1 f2 t o dd =
    if ltb (data_validation_formula_str_len + 21) (length dd.formula1)
      || ltb (data_validation_formula_str_len + 21) (length dd.formula2)
    then refused formula_too_long
    else valid (record dd {
      formula1 = tagged (codes "<formula1>") (itoa f1) (codes "</formula1>");
      formula2 = tagged (codes "<formula2>") (itoa f2) (codes "</formula2>");
      t = conv_data_validation_type t;
      operator = conv_data_validation_operatior o;
    })

unfoldable pub set_sqref_drop_list : Bytes → Bool → DataValidation → Validated
set_sqref_drop_list sqref is_current_sheet dd =
    if is_current_sheet
    then valid (record dd { formula1 = sqref; t = conv_data_validation_type (pos 5) })
    else refused cross_sheet_sqref

unfoldable pub set_sqref : Bytes → DataValidation → DataValidation
set_sqref sqref dd = record dd {
  sqref = if str_eq dd.sqref [] then sqref else dd.sqref ++ 32 ∷ sqref;
}

-- The objects of a sheet: AddDataValidation counts them.
pub record DataValidations : Type 0 where
  pub count : ℤ
  pub data_validation : List DataValidation

unfoldable pub add_data_validation :
    DataValidation → Option DataValidations → Option DataValidations
add_data_validation dv none = some (record { count = pos 1; data_validation = dv ∷ [] })
add_data_validation dv (some d) = some (record {
  count = pos (length (d.data_validation ++ dv ∷ []));
  data_validation = d.data_validation ++ dv ∷ [];
})

length-join : (a b c : Bytes) → length (tagged a b c) ≡ length a + (length b + length c)
length-join a b c = length-append a (b ++ c) ∙ ap (λ n. length a + n) (length-append b c)

-- A list of keys with at most 255 bytes, its commas counted, is accepted by SetDropList, and with
-- its tags still passes the guard of a SetRange behind it, where the second formula passes it too.
pub set_range-set_drop_list :
    (keys : List Bytes) (dd : DataValidation) (f1 f2 t o : ℤ)
    → length (join_keys keys) ≤ 255
    → length dd.formula2 ≤ 278
    → and_then (set_drop_list keys dd) (set_range f1 f2 t o)
      ≡ valid (record dd {
        formula1 = tagged (codes "<formula1>") (itoa f1) (codes "</formula1>");
        formula2 = tagged (codes "<formula2>") (itoa f2) (codes "</formula2>");
        t = conv_data_validation_type t;
        operator = conv_data_validation_operatior o;
      })
unfolding set_drop_list set_range
set_range-set_drop_list keys dd f1 f2 t o h h2 =
    let formula = 34 ∷ join_keys keys ++ 34 ∷ [] in
    let l : length (join_keys keys ++ 34 ∷ []) ≡ length (join_keys keys) + 1 =
      length-append (join_keys keys) (34 ∷ []) in
    let short : ltb data_validation_formula_str_len (length formula) ≡ false = ground (arith, l) in
    let l1 = length-join (codes "<formula1>") formula (codes "</formula1>") in
    let first : ltb (data_validation_formula_str_len + 21)
          (length (tagged (codes "<formula1>") formula (codes "</formula1>")))
        ≡ false =
      ground (arith, l, l1) in
    let second : ltb (data_validation_formula_str_len + 21) (length dd.formula2) ≡ false =
      ground arith in
    rw (short, first, second)
