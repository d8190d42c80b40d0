-- ===== src/Cols/Access.antt =====
-- What the getters give behind each setter, for every column.
use excelize.Cols.{
  default_col_width_pixels, visible_loop, level_loop, width_loop, copy_loop, zero_col,
  get_col_visible, get_col_outline_level, width_or_default, get_col_width, with_hidden, with_level,
  appended_cols, set_col_visible, set_col_outline_level,
}
use excelize.Cols.Laws.{visible_loop-append, level_loop-append}
use excelize.Common.{
  ℕ, ◌≡◌, refl, ap, ◌∙◌, Bool, true, Option, none, some, List, arith, if◌then◌else◌, Bytes, ◌>>=◌,
  ok,
}
use excelize.Common.Int.{ℤ, eqb_ℤ}
use excelize.Ref.Column.{column_name_to_number}
use excelize.Sheet.Data.{Col, Worksheet}

abbrev pub visible_of : Option (List Col) → ℤ → Bool
visible_of none n = true
visible_of (some cs) n = visible_loop cs n true

abbrev pub level_of : Option (List Col) → ℤ → ℕ
level_of none n = 0
level_of (some cs) n = level_loop cs n 0

abbrev pub width_of : Option (List Col) → ℤ → ℕ
width_of none n = default_col_width_pixels
width_of (some cs) n = width_or_default (width_loop cs n 0)

pub get_col_visible-of :
    (col : Bytes) (xlsx : Worksheet) (n : ℤ)
    → column_name_to_number col ≡ ok n
    → get_col_visible col xlsx ≡ ok (visible_of xlsx.cols n)
unfolding get_col_visible
get_col_visible-of col xlsx n e = rw e (ap ok (by_cols xlsx.cols))
  where
    by_cols :
        (o : Option (List Col))
        → (elim o [ none ↦ true | some cs ↦ visible_loop cs n true ]) ≡ visible_of o n
    by_cols none = refl
    by_cols (some cs) = refl

get_col_outline_level-of :
    (col : Bytes) (xlsx : Worksheet) (n : ℤ)
    → column_name_to_number col ≡ ok n
    → get_col_outline_level col xlsx ≡ ok (level_of xlsx.cols n)
unfolding get_col_outline_level
get_col_outline_level-of col xlsx n e = rw e (ap ok (by_cols xlsx.cols))
  where
    by_cols :
        (o : Option (List Col)) → (elim o [ none ↦ 0 | some cs ↦ level_loop cs n 0 ]) ≡ level_of o n
    by_cols none = refl
    by_cols (some cs) = refl

pub get_col_width-of :
    (col : Bytes) (xlsx : Worksheet) (n : ℤ)
    → column_name_to_number col ≡ ok n
    → get_col_width col xlsx ≡ ok (width_of xlsx.cols n)
unfolding get_col_width
get_col_width-of col xlsx n e = rw e (ap ok (by_cols xlsx.cols))
  where
    by_cols :
        (o : Option (List Col))
        → (elim o [
          | none ↦ default_col_width_pixels
          | some cs ↦ width_or_default (width_loop cs n 0)
        ])
          ≡ width_of o n
    by_cols none = refl
    by_cols (some cs) = refl

hidden_cols :
    (o : Option (List Col)) (n m : ℤ) (v : Bool)
    → visible_of (some (appended_cols (with_hidden n v) n o)) m
      ≡ (if eqb_ℤ n m then v else visible_of o m)
hidden_cols none n m v = unfold visible_loop in ground arith
hidden_cols (some cs) n m v =
    visible_loop-append cs (with_hidden n v (copy_loop cs n zero_col)) m true ∙ ground arith

level_cols :
    (o : Option (List Col)) (n m : ℤ) (l : ℕ)
    → level_of (some (appended_cols (with_level n l) n o)) m
      ≡ (if eqb_ℤ n m then l else level_of o m)
level_cols none n m l = unfold level_loop in ground arith
level_cols (some cs) n m l =
    level_loop-append cs (with_level n l (copy_loop cs n zero_col)) m 0 ∙ ground arith

-- SetColVisible gives its column the new visibility, and leaves that of the other columns.
pub get-set_col_visible :
    (col col' : Bytes) (n m : ℤ) (v : Bool) (xlsx : Worksheet)
    → column_name_to_number col ≡ ok n
    → column_name_to_number col' ≡ ok m
    → (set_col_visible col v xlsx >>= get_col_visible col')
      ≡ ok (if eqb_ℤ n m then v else visible_of xlsx.cols m)
unfolding set_col_visible
get-set_col_visible col col' n m v xlsx e e' = rw e (
    get_col_visible-of col'
      (record xlsx { cols = some (appended_cols (with_hidden n v) n xlsx.cols) }) m e'
    ∙ ap ok (hidden_cols xlsx.cols n m v))

-- SetColOutlineLevel gives its column the new level, and leaves that of the other columns.
pub get-set_col_outline_level :
    (col col' : Bytes) (n m : ℤ) (l : ℕ) (xlsx : Worksheet)
    → column_name_to_number col ≡ ok n
    → column_name_to_number col' ≡ ok m
    → (set_col_outline_level col l xlsx >>= get_col_outline_level col')
      ≡ ok (if eqb_ℤ n m then l else level_of xlsx.cols m)
unfolding set_col_outline_level
get-set_col_outline_level col col' n m l xlsx e e' = rw e (
    get_col_outline_level-of col'
      (record xlsx { cols = some (appended_cols (with_level n l) n xlsx.cols) }) m e'
    ∙ ap ok (level_cols xlsx.cols n m l))
