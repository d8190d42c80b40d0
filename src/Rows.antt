-- ===== src/Rows.antt =====
-- Rows (rows.go): height, visibility and outline level of the rows of a worksheet.
pub mod Stored
pub mod Access
use excelize.Cols.{float_zero}
use excelize.Common.{
  ℕ, Bool, true, false, not, ◌&&◌, none, some, List, [], ◌∷◌, if◌then◌else◌, length, Result, ◌>>=◌,
  invalid_row_number, ok, err, fault,
}
use excelize.Common.Int.{ℤ, ◌-ℤ◌, ltb_ℤ, eqb_ℤ, pos}
use excelize.Sheet.Data.{Row, Worksheet, index?, modify_at}
use excelize.Sheet.Prepare.{prepare_sheet_xml}

-- 20.0 as a float64.
abbrev pub default_row_height_pixels : ℕ
default_row_height_pixels = 0x4034000000000000

-- What the three setters do: check the number, grow the grid up to the row, and write to the row.
unfoldable pub update_row : (Row → Row) → ℤ → Worksheet → Result Worksheet
unfolding prepare_sheet_xml
update_row f row xlsx =
    if ltb_ℤ row (pos 1)
    then err (invalid_row_number row)
    else (prepare_sheet_xml xlsx (pos 0) row >>= λ grown.
        modify_at (row -ℤ pos 1) f grown.rows >>= λ rows. ok (record grown { rows = rows }))

abbrev pub write_height : ℕ → Row → Row
write_height height d = record d { ht = height; custom_height = true }

abbrev pub write_visible : Bool → Row → Row
write_visible visible d = record d { hidden = not visible }

abbrev pub write_level : ℕ → Row → Row
write_level level d = record d { outline_level = level }

unfoldable pub set_row_height : ℤ → ℕ → Worksheet → Result Worksheet
set_row_height row height = update_row (write_height height) row

unfoldable pub set_row_visible : ℤ → Bool → Worksheet → Result Worksheet
set_row_visible row visible = update_row (write_visible visible) row

unfoldable pub set_row_outline_level : ℤ → ℕ → Worksheet → Result Worksheet
set_row_outline_level row level = update_row (write_level level) row

-- The loop of GetRowHeight: the first row with the number and a height.
unfoldable pub height_loop : List Row → ℤ → ℕ
height_loop [] row = default_row_height_pixels
height_loop (d ∷ ds) row =
    if eqb_ℤ d.r row && not (float_zero d.ht) then d.ht else height_loop ds row

unfoldable pub get_row_height : ℤ → Worksheet → Result ℕ
unfolding height_loop
get_row_height row xlsx =
    if ltb_ℤ row (pos 1)
    then err (invalid_row_number row)
    else if ltb_ℤ (pos (length xlsx.rows)) row
    then ok default_row_height_pixels
    else ok (height_loop xlsx.rows row)

-- A field of `Row[row-1]`, or the value that stands for a row behind the grid.
unfoldable pub read_row {ℓ} : {A : Type ℓ} → (Row → A) → A → ℤ → Worksheet → Result A
read_row field otherwise row xlsx =
    if ltb_ℤ row (pos 1)
    then err (invalid_row_number row)
    else if ltb_ℤ (pos (length xlsx.rows)) row
    then ok otherwise
    else elim (index? xlsx.rows (row -ℤ pos 1)) [ none ↦ fault | some d ↦ ok (field d) ]

unfoldable pub get_row_visible : ℤ → Worksheet → Result Bool
unfolding read_row
get_row_visible row = read_row (λ d. not d.hidden) false row

unfoldable pub get_row_outline_level : ℤ → Worksheet → Result ℕ
unfolding read_row
get_row_outline_level row = read_row (λ d. d.outline_level) 0 row
