-- ===== src/Tests/Cols.antt =====
-- Columns at concrete inputs.
use excelize.Cols.{
  zero_col, get_col_visible, get_col_outline_level, width_or_default, get_col_width,
  set_col_visible, set_col_outline_level, set_col_width,
}
use excelize.Cols.Access.{
  visible_of, level_of, width_of, get-set_col_visible, get-set_col_outline_level,
}
use excelize.Cols.Widths.{
  get_width-set_col_visible, between, get-set_col_width, set_col_width-shows,
}
use excelize.Common.{◌≡◌, refl, true, false, none, some, [], ◌∷◌, if◌then◌else◌, codes, ◌>>=◌, ok}
use excelize.Common.Int.{eqb_ℤ, pos}
use excelize.Ref.Column.{column_name_to_number}
use excelize.Sheet.Data.{Worksheet}

abbrev hidden_b : Worksheet
hidden_b = record {
  cols = some (
      record zero_col {
        min_col = pos 2;
        max_col = pos 2;
        hidden = true;
        outline_level = 3;
        width = 0x4034000000000000;
      }
      ∷ []);
  rows = [];
  auto_filter = none;
  merge_cells = none;
  hyperlinks = none;
}

column_b : column_name_to_number (codes "B") ≡ ok (pos 2)
unfolding column_name_to_number
column_b = refl

column_a : column_name_to_number (codes "A") ≡ ok (pos 1)
unfolding column_name_to_number
column_a = refl

column_d : column_name_to_number (codes "d") ≡ ok (pos 4)
unfolding column_name_to_number
column_d = refl

get-set_col_visible_example :
    (set_col_visible (codes "A") false hidden_b >>= get_col_visible (codes "B"))
    ≡ ok (if eqb_ℤ (pos 1) (pos 2) then false else visible_of hidden_b.cols (pos 2))
get-set_col_visible_example =
    get-set_col_visible (codes "A") (codes "B") (pos 1) (pos 2) false hidden_b column_a column_b

get-set_col_outline_level_example :
    (set_col_outline_level (codes "A") 5 hidden_b >>= get_col_outline_level (codes "B"))
    ≡ ok (if eqb_ℤ (pos 1) (pos 2) then 5 else level_of hidden_b.cols (pos 2))
get-set_col_outline_level_example =
    get-set_col_outline_level (codes "A") (codes "B") (pos 1) (pos 2) 5 hidden_b column_a column_b

get_width-set_col_visible_example :
    (set_col_visible (codes "B") true hidden_b >>= get_col_width (codes "B"))
    ≡ get_col_width (codes "B") hidden_b
get_width-set_col_visible_example =
    get_width-set_col_visible (codes "B") (codes "B") (pos 2) (pos 2) true hidden_b column_b
      column_b

get-set_col_width_example :
    (set_col_width (codes "d") (codes "A") 0x4044000000000000 hidden_b
      >>= get_col_width (codes "B"))
    ≡ ok (
        if between (pos 4) (pos 1) (pos 2)
        then width_or_default 0x4044000000000000
        else width_of hidden_b.cols (pos 2))
get-set_col_width_example =
    get-set_col_width (codes "d") (codes "A") (codes "B") (pos 4) (pos 1) (pos 2) 0x4044000000000000
      hidden_b column_d column_a column_b

shown_by_width :
    (set_col_width (codes "d") (codes "A") 0x4044000000000000 hidden_b
      >>= get_col_visible (codes "B"))
    ≡ ok (if between (pos 4) (pos 1) (pos 2) then true else visible_of hidden_b.cols (pos 2))
shown_by_width =
    set_col_width-shows (codes "d") (codes "A") (codes "B") (pos 4) (pos 1) (pos 2)
      0x4044000000000000 hidden_b column_d column_a column_b
