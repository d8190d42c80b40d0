-- ===== src/Adjust/InsertedGrid.antt =====
-- The grid behind the insertion of a row, as a function of the index.
use mathlib.Core.Path.{ap₂}
use native.Mathlib.Decide.{dec_lt}
use excelize.Adjust.Check.{exists_rows, row_or_blank, sheet_loop, count_of, row_count, check_sheet}
use excelize.Adjust.Dimensions.{renamed, ajust_single_row_dimensions, adjust_row_dimensions}
use excelize.Adjust.Inserted.{
  numbered, moved_down, moved?, shifted_row, next_pos, next_number, head_lem, exists_rows-adjusted,
}
use excelize.Adjust.Ops.{adjust_dimensions}
use excelize.Common.{
  ℕ, zero, suc, ◌+◌, ◌-◌, ◌≤◌, ◌<◌, ◌≡◌, refl, sym, ap, ◌∙◌, Bool, true, false, Option, none, some,
  List, [], ◌∷◌, arith, ltb, ◌==◌, if◌then◌else◌, length, get_last?,
}
use excelize.Common.Int.{ℤ, pos_part, max_int, leb_ℤ, pos}
use excelize.Rows.Stored.{row_at}
use excelize.Sheet.Data.{Row, Worksheet, blank_row}
use excelize.Sheet.Grid.{IsRows, IsGrid}

length-adjusted :
    (rows : List Row) (num offset : ℤ)
    → length (adjust_row_dimensions rows num offset) ≡ length rows
unfolding adjust_row_dimensions
length-adjusted [] num offset = refl
length-adjusted (d ∷ ds) num offset = ap suc (length-adjusted ds num offset)

-- The number of the last row, where it has moved.
last_moved_row :
    (n k : ℕ) (d : Row) (ds : List Row)
    → IsRows k (d ∷ ds)
    → k + length (d ∷ ds) < max_int
    → n ≤ k + length ds
    → (e : Row) × (get_last? (adjust_row_dimensions (d ∷ ds) (pos (suc n)) (pos 1)) ≡ some e)
      × (e.r ≡ pos (suc (suc (k + length ds))))
unfolding adjust_row_dimensions
last_moved_row n k d [] (b, er, hc, g) h le =
    let q : k + 0 ≡ k = omega arith in
    let stays : ltb k n ≡ false = ground arith in
    (
      moved_down d,
      ap some (head_lem n k d er (omega arith) ∙ ap (λ t. if t then d else moved_down d) stays),
      rw q (next_number k d er (omega arith)),
    )
last_moved_row n k d (d' ∷ ds) (b, er, hc, g) h le =
    let q : suc k + length ds ≡ k + suc (length ds) = omega arith in
    let (e, at, r) = last_moved_row n (suc k) d' ds g (omega arith) (omega arith) in
    (e, at, r ∙ ap (λ z. pos (suc (suc z))) q)

row_count-ge :
    (n : ℕ) (rows : List Row)
    → IsRows 0 rows
    → length rows < max_int
    → n < length rows
    → row_count (adjust_row_dimensions rows (pos (suc n)) (pos 1)) ≡ suc (length rows)
unfolding row_count
row_count-ge n [] g h lt = absurd (omega arith)
row_count-ge n (d ∷ ds) g h lt =
    let (e, at, r) = last_moved_row n 0 d ds g (omega arith) (omega arith) in
    let z : 0 + length ds ≡ length ds = omega arith in
    ap₂ count_of at (length-adjusted (d ∷ ds) (pos (suc n)) (pos 1))
    ∙ ap (λ v. if leb_ℤ (pos (suc (length ds))) v then pos_part v else suc (length ds))
        (r ∙ ap (λ l. pos (suc (suc l))) z)
    ∙ ground arith

row_count-length : (rows : List Row) → length rows ≤ row_count rows
unfolding row_count
row_count-length rows = by_last (get_last? rows)
  where
    by_last : (o : Option Row) → length rows ≤ count_of o (length rows)
    by_last none = omega arith
    by_last (some d) = ground arith

numbered-ge : (k : ℕ) (rows : List Row) (m : ℕ) → k + length rows ≤ m → numbered k rows m ≡ none
numbered-ge k [] m h = refl
numbered-ge k (d ∷ ds) m h =
    let e : (k == m) ≡ false = ground arith in rw e (numbered-ge (suc k) ds m (omega arith))

numbered-row_at :
    (k : ℕ) (rows : List Row) (i : ℕ)
    → row_or_blank (numbered k rows (k + i)) (pos (suc (k + i))) ≡ row_at k rows i
unfolding row_or_blank
numbered-row_at k [] i = refl
numbered-row_at k (d ∷ ds) zero = let e : (k == (k + 0)) ≡ true = ground arith in rw e
numbered-row_at k (d ∷ ds) (suc i) =
    let e : (k == (k + suc i)) ≡ false = ground arith in
    let q : k + suc i ≡ suc k + i = omega arith in rw e (rw q (numbered-row_at (suc k) ds i))

row_at-sheet_loop :
    (rounds k i : ℕ) (rows : List Row)
    → row_at k (sheet_loop rounds k rows) i ≡ (
        if ltb i rounds
        then row_or_blank (exists_rows rows (pos (suc (k + i)))) (pos (suc (k + i)))
        else blank_row (pos (suc (k + i))))
unfolding sheet_loop
row_at-sheet_loop zero k i rows = ground arith
row_at-sheet_loop (suc rounds) k zero rows = let q : k + 0 ≡ k = omega arith in rw q (ground arith)
row_at-sheet_loop (suc rounds) k (suc i) rows =
    let q : k + suc i ≡ suc k + i = omega arith in
    let t : ltb (suc i) (suc rounds) ≡ ltb i rounds = ground arith in
    rw (q, t) (row_at-sheet_loop rounds (suc k) i rows)

-- Behind the insertion the row at the index m.
abbrev pub row_behind : ℕ → List Row → ℕ → Row
row_behind n rows m = row_or_blank (shifted_row n (numbered 0 rows) m) (pos (suc m))

none_behind :
    (n : ℕ) (rows : List Row) (m : ℕ)
    → IsRows 0 rows
    → length rows < max_int
    → row_count (adjust_row_dimensions rows (pos (suc n)) (pos 1)) ≤ m
    → shifted_row n (numbered 0 rows) m ≡ none
none_behind n rows zero g h le =
    let e : numbered 0 rows 0 ≡ none = numbered-ge 0 rows 0 (
      omega (
        arith,
        length-adjusted rows (pos (suc n)) (pos 1),
        row_count-length (adjust_row_dimensions rows (pos (suc n)) (pos 1)),
      )) in
    rw e (ground arith)
none_behind n rows (suc m) g h le =
    let len : length rows ≤ suc m = omega (
      arith,
      length-adjusted rows (pos (suc n)) (pos 1),
      row_count-length (adjust_row_dimensions rows (pos (suc n)) (pos 1)),
    ) in
    let e : numbered 0 rows (suc m) ≡ none = numbered-ge 0 rows (suc m) (omega arith) in
    rw e (by_test (ltb n (length rows)) refl)
  where
    by_test :
        (t : Bool)
        → ltb n (length rows) ≡ t
        → (if ltb (suc m) n then none else if suc m == n then none else moved? (numbered 0 rows m))
          ≡ none
    by_test true t =
        let c = row_count-ge n rows g h (ground arith) in
        let e : numbered 0 rows m ≡ none = numbered-ge 0 rows m (omega (arith, c)) in
        rw e (ground arith)
    by_test false t = elim (dec_lt m n) [
      | yes q ↦ ground arith
      | no q ↦
          let e : numbered 0 rows m ≡ none = numbered-ge 0 rows m (ground arith) in
          rw e (ground arith)
    ]

moved_or_blank :
    (m : ℕ) (o : Option Row)
    → suc m < max_int
    → row_or_blank (moved? o) (pos (suc (suc m))) ≡ moved_down (row_or_blank o (pos (suc m)))
unfolding row_or_blank ajust_single_row_dimensions renamed
moved_or_blank m none h = ap blank_row (sym (next_pos m h))
moved_or_blank m (some d) h = refl

inserted-rows :
    (n : ℕ) (xlsx : Worksheet) (m : ℕ)
    → IsGrid xlsx
    → length xlsx.rows < max_int
    → row_at 0 (check_sheet (adjust_dimensions true (pos (suc n)) (pos 1) xlsx)).rows m
      ≡ row_behind n xlsx.rows m
unfolding check_sheet adjust_dimensions row_or_blank
inserted-rows n xlsx m g h =
    let moved = adjust_row_dimensions xlsx.rows (pos (suc n)) (pos 1) in
    let z : 0 + m ≡ m = omega arith in
    rw z at (row_at-sheet_loop (row_count moved) 0 m moved) ∙ by_test (ltb m (row_count moved)) refl
  where
    by_test :
        (t : Bool)
        → ltb m (row_count (adjust_row_dimensions xlsx.rows (pos (suc n)) (pos 1))) ≡ t
        → (if t
            then row_or_blank
                (exists_rows (adjust_row_dimensions xlsx.rows (pos (suc n)) (pos 1)) (pos (suc m)))
                (pos (suc m))
            else blank_row (pos (suc m)))
          ≡ row_behind n xlsx.rows m
    by_test true t =
        ap (λ o. row_or_blank o (pos (suc m)))
          (exists_rows-adjusted n 0 xlsx.rows m g (omega arith))
    by_test false t =
        sym (ap (λ o. row_or_blank o (pos (suc m))) (none_behind n xlsx.rows m g h (ground arith)))

-- In a well-formed grid that is not full, adjustRowDimensions and checkSheet together insert a blank
-- row with the index n: the rows above stay as they are, and each row from there on stands one
-- further down, as adjustSingleRowDimensions leaves it.
pub row_at-inserted :
    (n : ℕ) (xlsx : Worksheet) (m : ℕ)
    → IsGrid xlsx
    → length xlsx.rows < max_int
    → m < max_int
    → row_at 0 (check_sheet (adjust_dimensions true (pos (suc n)) (pos 1) xlsx)).rows m ≡ (
        if ltb m n
        then row_at 0 xlsx.rows m
        else if m == n
        then blank_row (pos (suc m))
        else moved_down (row_at 0 xlsx.rows (m - 1)))
unfolding row_or_blank
row_at-inserted n xlsx zero g h hm = inserted-rows n xlsx 0 g h ∙ by_test (ltb 0 n) refl
  where
    by_test :
        (t : Bool)
        → ltb 0 n ≡ t
        → row_or_blank (if t then numbered 0 xlsx.rows 0 else none) (pos 1) ≡ (
            if t
            then row_at 0 xlsx.rows 0
            else if 0 == n
            then blank_row (pos 1)
            else moved_down (row_at 0 xlsx.rows 0))
    by_test true t = numbered-row_at 0 xlsx.rows 0
    by_test false t = let e : (0 == n) ≡ true = ground arith in rw e
row_at-inserted n xlsx (suc m) g h hm =
    inserted-rows n xlsx (suc m) g h ∙ by_tests (ltb (suc m) n) (suc m == n)
  where
    z : (k : ℕ) → 0 + k ≡ k
    z k = omega arith

    by_tests :
        (s t : Bool)
        → row_or_blank
            (if s
              then numbered 0 xlsx.rows (suc m)
              else if t
              then none
              else moved? (numbered 0 xlsx.rows m))
            (pos (suc (suc m)))
          ≡ (if s
              then row_at 0 xlsx.rows (suc m)
              else if t
              then blank_row (pos (suc (suc m)))
              else moved_down (row_at 0 xlsx.rows (suc m - 1)))
    by_tests true t = rw (z (suc m)) at (numbered-row_at 0 xlsx.rows (suc m))
    by_tests false true = refl
    by_tests false false =
        let p : suc m - 1 ≡ m = omega arith in
        moved_or_blank m (numbered 0 xlsx.rows m) hm
        ∙ ap moved_down
            (rw (z m) at (numbered-row_at 0 xlsx.rows m) ∙ ap (row_at 0 xlsx.rows) (sym p))
