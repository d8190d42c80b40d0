-- ===== src/Adjust/Check.antt =====
-- checkSheet (excelize.go) and checkRow (rows.go).
use excelize.Common.{
  ℕ, zero, suc, Bool, true, false, Option, none, some, List, [], ◌∷◌, if◌then◌else◌, length,
  get_last?, Result, ◌>>=◌, ok, err, fault,
}
use excelize.Common.Int.{ℤ, pos_part, ◌-ℤ◌, ltb_ℤ, leb_ℤ, eqb_ℤ, pos}
use excelize.Ref.Cell.{cell_name_to_coordinates, coordinates_to_cell_name}
use excelize.Ref.Cell.RoundTrip.{cell_name}
use excelize.Sheet.Data.{Cell, Row, Worksheet, blank_cell, blank_row, modify_at}

abbrev pub or_else : Option Row → Option Row → Option Row
or_else none o = o
or_else (some d) o = some d

-- The map existsRows: the last row with a number.
unfoldable pub exists_rows : List Row → ℤ → Option Row
exists_rows [] n = none
exists_rows (d ∷ ds) n = or_else (exists_rows ds n) (if eqb_ℤ d.r n then some d else none)

unfoldable pub row_or_blank : Option Row → ℤ → Row
row_or_blank none n = blank_row n
row_or_blank (some d) n = d

unfoldable pub sheet_loop : ℕ → ℕ → List Row → List Row
unfolding exists_rows row_or_blank
sheet_loop zero i rows = []
sheet_loop (suc rounds) i rows =
    row_or_blank (exists_rows rows (pos (suc i))) (pos (suc i)) ∷ sheet_loop rounds (suc i) rows

-- The number of rows that checkSheet makes: the number of the last row, or how many there are.
abbrev pub count_of : Option Row → ℕ → ℕ
count_of none l = l
count_of (some d) l = if leb_ℤ (pos l) d.r then pos_part d.r else l

unfoldable pub row_count : List Row → ℕ
row_count rows = count_of (get_last? rows) (length rows)

unfoldable pub check_sheet : Worksheet → Worksheet
unfolding sheet_loop row_count
check_sheet xlsx = record xlsx { rows = sheet_loop (row_count xlsx.rows) 0 xlsx.rows }

-- `newlist`: the blank cells of a row, from the index `idx` on.
unfoldable pub blank_cells : ℕ → ℕ → ℤ → Result (List Cell)
blank_cells zero idx row = ok []
blank_cells (suc rounds) idx row = do
  cell_name ← coordinates_to_cell_name (pos (suc idx)) row
  rest ← blank_cells rounds (suc idx) row
  ok (blank_cell cell_name ∷ rest)

-- The old cells written at their columns; false stands for the early return with an error.
unfoldable pub scatter : List Cell → List Cell → Result (List Cell × Bool)
scatter [] cells = ok (cells, true)
scatter (x ∷ xs) cells = elim (cell_name_to_coordinates x.r) [
  | err e ↦ ok (cells, false)
  | fault ↦ fault
  | ok p ↦ modify_at (p.0 -ℤ pos 1) (λ _. x) cells >>= scatter xs
]

unfoldable pub fill_row : ℤ → ℤ → List Cell → Result (List Cell × Bool)
unfolding blank_cells scatter
fill_row last_col row cells =
    if ltb_ℤ (pos (length cells)) last_col
    then elim (blank_cells (pos_part last_col) 0 row) [
      | err e ↦ ok ([], false)
      | fault ↦ fault
      | ok newlist ↦ scatter cells newlist
    ]
    else ok (cells, true)

unfoldable pub check_cells : ℤ → List Cell → Result (List Cell × Bool)
unfolding fill_row
check_cells row cells = elim (get_last? cells) [
  | none ↦ ok (cells, true)
  | some x ↦ elim (cell_name_to_coordinates x.r) [
    | err e ↦ ok (cells, false)
    | fault ↦ fault
    | ok p ↦ fill_row p.0 row cells
  ]
]

-- The loop of checkRow over the rows from the index `idx` on. Its callers drop its error, so the
-- model gives the rows as the loop leaves them.
unfoldable pub check_rows : ℕ → List Row → Result (List Row)
unfolding check_cells
check_rows idx [] = ok []
check_rows idx (d ∷ ds) =
    let rest = check_rows (suc idx) ds in
    check_cells (pos (suc idx)) d.c >>= λ p.
    if p.1
    then (rest >>= λ ds'. ok (record d { c = p.0 } ∷ ds'))
    else ok (record d { c = p.0 } ∷ ds)

unfoldable pub check_row : Worksheet → Result Worksheet
unfolding check_rows
check_row xlsx = check_rows 0 xlsx.rows >>= λ rows. ok (record xlsx { rows = rows })
