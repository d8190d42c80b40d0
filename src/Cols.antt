-- ===== src/Cols.antt =====
-- Columns (col.go): visibility, outline level and width of the columns of a worksheet.
pub mod Laws
pub mod Access
pub mod Widths
use excelize.Common.{
  ℕ, ◌%◌, ◌^◌, Bool, true, false, not, ◌&&◌, Option, none, some, List, [], ◌∷◌, ◌++◌, ◌==◌,
  if◌then◌else◌, Bytes, Result, ◌>>=◌, ok,
}
use excelize.Common.Int.{ℤ, ltb_ℤ, leb_ℤ, pos}
use excelize.Ref.Column.{column_name_to_number}
use excelize.Sheet.Data.{Col, Worksheet}

-- `c.Min <= col && col <= c.Max`.
abbrev pub holds_col : Col → ℤ → Bool
holds_col c n = leb_ℤ c.min_col n && leb_ℤ n c.max_col

-- The test `width != 0` on a float64: neither of the two zeros.
abbrev pub float_zero : ℕ → Bool
float_zero w = w % 2 ^ 63 == 0

-- 64.0 as a float64.
abbrev pub default_col_width_pixels : ℕ
default_col_width_pixels = 0x4050000000000000

-- The three loops that keep the attribute of the last column that matches.
unfoldable pub visible_loop : List Col → ℤ → Bool → Bool
visible_loop [] n visible = visible
visible_loop (c ∷ cs) n visible =
    visible_loop cs n (if holds_col c n then not c.hidden else visible)

unfoldable pub level_loop : List Col → ℤ → ℕ → ℕ
level_loop [] n level = level
level_loop (c ∷ cs) n level = level_loop cs n (if holds_col c n then c.outline_level else level)

unfoldable pub width_loop : List Col → ℤ → ℕ → ℕ
width_loop [] n width = width
width_loop (c ∷ cs) n width = width_loop cs n (if holds_col c n then c.width else width)

-- `colData = xlsx.Cols.Col[v]` for the last column that matches.
unfoldable pub copy_loop : List Col → ℤ → Col → Col
copy_loop [] n col_data = col_data
copy_loop (c ∷ cs) n col_data = copy_loop cs n (if holds_col c n then c else col_data)

abbrev pub zero_col : Col
zero_col = record {
  best_fit = false;
  collapsed = false;
  custom_width = false;
  hidden = false;
  max_col = pos 0;
  min_col = pos 0;
  outline_level = 0;
  phonetic = false;
  style = pos 0;
  width = 0;
}

unfoldable pub get_col_visible : Bytes → Worksheet → Result Bool
unfolding visible_loop
get_col_visible col xlsx = do
  col_num ← column_name_to_number col
  ok (elim xlsx.cols [ none ↦ true | some cs ↦ visible_loop cs col_num true ])

unfoldable pub get_col_outline_level : Bytes → Worksheet → Result ℕ
unfolding level_loop
get_col_outline_level col xlsx = do
  col_num ← column_name_to_number col
  ok (elim xlsx.cols [ none ↦ 0 | some cs ↦ level_loop cs col_num 0 ])

unfoldable pub width_or_default : ℕ → ℕ
width_or_default width = if float_zero width then default_col_width_pixels else width

unfoldable pub get_col_width : Bytes → Worksheet → Result ℕ
unfolding width_loop width_or_default
get_col_width col xlsx = do
  col_num ← column_name_to_number col
  ok (elim xlsx.cols [
    | none ↦ default_col_width_pixels
    | some cs ↦ width_or_default (width_loop cs col_num 0)
  ])

-- The column that is appended: the fields that the setter gives, over a copy of the last match.
abbrev pub with_hidden : ℤ → Bool → Col → Col
with_hidden n visible c = record c {
  min_col = n;
  max_col = n;
  hidden = not visible;
  custom_width = true;
}

abbrev pub with_level : ℤ → ℕ → Col → Col
with_level n level c = record c {
  min_col = n;
  max_col = n;
  outline_level = level;
  custom_width = true;
}

abbrev pub appended_cols : (Col → Col) → ℤ → Option (List Col) → List Col
appended_cols f n none = f zero_col ∷ []
appended_cols f n (some cs) = cs ++ f (copy_loop cs n zero_col) ∷ []

unfoldable pub set_col_visible : Bytes → Bool → Worksheet → Result Worksheet
unfolding copy_loop
set_col_visible col visible xlsx = do
  col_num ← column_name_to_number col
  ok (record xlsx { cols = some (appended_cols (with_hidden col_num visible) col_num xlsx.cols) })

unfoldable pub set_col_outline_level : Bytes → ℕ → Worksheet → Result Worksheet
unfolding copy_loop
set_col_outline_level col level xlsx = do
  col_num ← column_name_to_number col
  ok (record xlsx { cols = some (appended_cols (with_level col_num level) col_num xlsx.cols) })

-- SetColWidth copies nothing.
abbrev pub with_width : ℤ → ℤ → ℕ → Col
with_width lo hi w = record zero_col { min_col = lo; max_col = hi; width = w; custom_width = true }

abbrev pub cols_and : Option (List Col) → Col → List Col
cols_and none c = c ∷ []
cols_and (some cs) c = cs ++ c ∷ []

unfoldable pub set_col_width : Bytes → Bytes → ℕ → Worksheet → Result Worksheet
set_col_width startcol endcol width xlsx = do
  start ← column_name_to_number startcol
  stop ← column_name_to_number endcol
  let lo = if ltb_ℤ stop start then stop else start
  let hi = if ltb_ℤ stop start then start else stop
  ok (record xlsx { cols = some (cols_and xlsx.cols (with_width lo hi width)) })
