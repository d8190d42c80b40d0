-- ===== src/Tests/Validation.antt =====
-- Data validation at concrete inputs.
use excelize.Common.{◌≡◌, true, List, [], ◌∷◌, arith, Bytes, codes}
use excelize.Common.Int.{pos}
use excelize.Ref.Decimal.{itoa}
use excelize.Validation.{
  and_then, new_data_validation, conv_data_validation_type, conv_data_validation_operatior,
  join_keys, tagged, set_drop_list, set_range, set_range-set_drop_list, valid,
}

abbrev three_keys : List Bytes
three_keys = codes "1" ∷ codes "2" ∷ codes "3" ∷ []

set_range-set_drop_list_example :
    and_then
      (set_drop_list three_keys (new_data_validation true))
      (set_range (pos 10) (pos 20) (pos 8) (pos 1))
    ≡ valid (record (new_data_validation true) {
      formula1 = tagged (codes "<formula1>") (itoa (pos 10)) (codes "</formula1>");
      formula2 = tagged (codes "<formula2>") (itoa (pos 20)) (codes "</formula2>");
      t = conv_data_validation_type (pos 8);
      operator = conv_data_validation_operatior (pos 1);
    })
unfolding join_keys new_data_validation
set_range-set_drop_list_example =
    set_range-set_drop_list three_keys (new_data_validation true) (pos 10) (pos 20) (pos 8) (pos 1)
      (omega arith) (omega arith)
