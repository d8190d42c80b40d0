-- ===== src/Adjust/MovedDown.antt =====
-- The rows behind the insertion of a row, with their numbers and the names of their cells.
use mathlib.Core.Path.{ap₂}
use excelize.Adjust.Check.{check_sheet}
use excelize.Adjust.Dimensions.{renamed, ajust_single_row_dimensions}
use excelize.Adjust.Inserted.{moved_down, next_number}
use excelize.Adjust.InsertedGrid.{row_at-inserted}
use excelize.Adjust.Ops.{adjust_dimensions}
use excelize.Common.{
  ℕ, zero, suc, ◌+◌, ◌-◌, ◌≤◌, ◌<◌, ◌≡◌, refl, ap, ◌∙◌, true, List, [], ◌∷◌, arith, ltb, ◌==◌,
  if◌then◌else◌, length,
}
use excelize.Common.Int.{max_int, pos}
use excelize.Merge.Area.{upper_idem}
use excelize.Ref.Cell.{split_cell_name, join_cell_name, split_or, name_or}
use excelize.Ref.Cell.RoundTrip.{cell_name, split_cell_name-cell_name, join_cell_name-letters}
use excelize.Ref.Column.RoundTrip.{
  column_name, column_name-IsUpperLetters, IsUpperLetters-IsLetters, column_name-ne-nil,
}
use excelize.Rows.Stored.{row_at}
use excelize.Sheet.Data.{Cell, Row, Worksheet, blank_row}
use excelize.Sheet.Grid.{IsCells, IsRows, IsGrid}

-- The cells from the index j on, under the names that they have in a row with a number.
abbrev pub named : ℕ → ℕ → List Cell → List Cell
named row j [] = []
named row j (x ∷ xs) = record x { r = cell_name (suc j) row } ∷ named row (suc j) xs

-- A row under the number of the index m, with its cells named by it.
abbrev pub placed : ℕ → Row → Row
placed m d = record d { r = pos (suc m); c = named (suc m) 0 d.c }

new_name :
    (j row : ℕ)
    → 0 < row
    → name_or (join_cell_name (column_name (suc j)) (pos row)) ≡ cell_name (suc j) row
unfolding name_or cell_name
new_name j row h =
    rw
      (
        join_cell_name-letters (column_name (suc j)) row (column_name-ne-nil (suc j) (omega arith))
            (IsUpperLetters-IsLetters _ (column_name-IsUpperLetters (suc j))) h,
        upper_idem _ (column_name-IsUpperLetters (suc j)),
      )
      refl

renamed-IsCells :
    (row new j : ℕ) (xs : List Cell)
    → 0 < row
    → row ≤ max_int
    → 0 < new
    → IsCells row j xs
    → renamed (pos new) xs ≡ named new j xs
unfolding renamed split_or
renamed-IsCells row new j [] h le h' g = refl
renamed-IsCells row new j (x ∷ xs) h le h' (b, e, g) =
    ap₂ (λ n ys. record x { r = n } ∷ ys)
      (ap (λ s. name_or (join_cell_name (split_or (split_cell_name s)).0 (pos new))) e
        ∙ ap (λ p. name_or (join_cell_name (split_or p).0 (pos new)))
            (split_cell_name-cell_name (suc j) row (omega arith) h le)
        ∙ new_name j new h')
      (renamed-IsCells row new (suc j) xs h le h' g)

moved_down-placed :
    (k : ℕ) (d : Row)
    → d.r ≡ pos (suc k)
    → IsCells (suc k) 0 d.c
    → suc k < max_int
    → moved_down d ≡ placed (suc k) d
unfolding ajust_single_row_dimensions
moved_down-placed k d er g h =
    ap (ajust_single_row_dimensions d) (next_number k d er h)
    ∙ ap (λ cs. record d { r = pos (suc (suc k)); c = cs })
        (renamed-IsCells (suc k) (suc (suc k)) 0 d.c (omega arith) (omega arith) (omega arith) g)

row_at-IsRows :
    (k : ℕ) (rows : List Row) (i : ℕ)
    → IsRows k rows
    → ((row_at k rows i).r ≡ pos (suc (k + i))) × IsCells (suc (k + i)) 0 (row_at k rows i).c
row_at-IsRows k [] i g = (refl, tt)
row_at-IsRows k (d ∷ ds) zero (b, er, hc, g) = let q : k + 0 ≡ k = omega arith in rw q (er, hc)
row_at-IsRows k (d ∷ ds) (suc i) (b, er, hc, g) =
    let q : k + suc i ≡ suc k + i = omega arith in rw q (row_at-IsRows (suc k) ds i g)

-- In a well-formed grid that is not full, adjustRowDimensions and checkSheet together insert a blank
-- row with the index n: the rows above stay as they are, and each row from there on stands one
-- further down: it has the number of its new place, cell j the name of column j + 1 and that row, and
-- everything else as it was.
pub insert-row_at :
    (n : ℕ) (xlsx : Worksheet) (m : ℕ)
    → IsGrid xlsx
    → length xlsx.rows < max_int
    → m < max_int
    → row_at 0 (check_sheet (adjust_dimensions true (pos (suc n)) (pos 1) xlsx)).rows m ≡ (
        if ltb m n
        then row_at 0 xlsx.rows m
        else if m == n
        then blank_row (pos (suc m))
        else placed m (row_at 0 xlsx.rows (m - 1)))
insert-row_at n xlsx zero g h hm = row_at-inserted n xlsx 0 g h hm ∙ ground arith
insert-row_at n xlsx (suc m) g h hm =
    let z : 0 + m ≡ m = omega arith in
    let p : suc m - 1 ≡ m = omega arith in
    let (er, cells) = row_at-IsRows 0 xlsx.rows m g in
    row_at-inserted n xlsx (suc m) g h hm
    ∙ ap
        (λ d.
          if ltb (suc m) n
          then row_at 0 xlsx.rows (suc m)
          else if suc m == n
          then blank_row (pos (suc (suc m)))
          else d)
        (rw p (moved_down-placed m (row_at 0 xlsx.rows m) (rw z at er) (rw z at cells) hm))
