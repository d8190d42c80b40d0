-- ===== src/Cols/Widths.antt =====
-- The widths of columns: SetColWidth over a range, and what the other setters do to a width.
use mathlib.Core.Path.{subst}
use excelize.Cols.{
  visible_loop, width_loop, copy_loop, zero_col, get_col_visible, width_or_default, get_col_width,
  with_hidden, appended_cols, set_col_visible, with_width, cols_and, set_col_width,
}
use excelize.Cols.Access.{visible_of, width_of, get_col_visible-of, get_col_width-of}
use excelize.Cols.Laws.{visible_loop-append, width_loop-append, copy_loop-width}
use excelize.Common.{
  ℕ, ◌≡◌, refl, sym, ap, ◌∙◌, Bool, true, false, ◌&&◌, ◌||◌, Option, none, some, List, arith,
  if◌then◌else◌, ==_iff, Bytes, ◌>>=◌, ok,
}
use excelize.Common.Int.{ℤ, ltb_ℤ, leb_ℤ, eqb_ℤ, eq_of_parts}
use excelize.Ref.Column.{column_name_to_number}
use excelize.Sheet.Data.{Col, Worksheet}

width_hidden :
    (o : Option (List Col)) (n m : ℤ) (v : Bool)
    → eqb_ℤ n m ≡ false
    → width_of (some (appended_cols (with_hidden n v) n o)) m ≡ width_of o m
width_hidden none n m v e = unfold width_loop width_or_default in ground arith
width_hidden (some cs) n m v e =
    ap width_or_default
      (width_loop-append cs (with_hidden n v (copy_loop cs n zero_col)) m 0 ∙ ground arith)

width_hidden_same :
    (o : Option (List Col)) (n : ℤ) (v : Bool)
    → width_of (some (appended_cols (with_hidden n v) n o)) n ≡ width_of o n
width_hidden_same none n v = unfold width_loop width_or_default in ground arith
width_hidden_same (some cs) n v = ap width_or_default (
    width_loop-append cs (with_hidden n v (copy_loop cs n zero_col)) n 0
    ∙ (ground arith ∙ copy_loop-width cs n zero_col))

width_hidden_any :
    (o : Option (List Col)) (n m : ℤ) (v : Bool)
    → width_of (some (appended_cols (with_hidden n v) n o)) m ≡ width_of o m
width_hidden_any o n m v = by_test (eqb_ℤ n m) refl
  where
    by_test :
        (t : Bool)
        → eqb_ℤ n m ≡ t
        → width_of (some (appended_cols (with_hidden n v) n o)) m ≡ width_of o m
    by_test true e =
        subst (λ k. width_of (some (appended_cols (with_hidden n v) n o)) k ≡ width_of o k)
          (eq_of_parts n m ((==_iff _ _).0 e)) (width_hidden_same o n v)
    by_test false e = width_hidden o n m v e

-- Setting the visibility of a column changes the width of no column.
pub get_width-set_col_visible :
    (col col' : Bytes) (n m : ℤ) (v : Bool) (xlsx : Worksheet)
    → column_name_to_number col ≡ ok n
    → column_name_to_number col' ≡ ok m
    → (set_col_visible col v xlsx >>= get_col_width col') ≡ get_col_width col' xlsx
unfolding set_col_visible
get_width-set_col_visible col col' n m v xlsx e e' = rw e (
    get_col_width-of col'
      (record xlsx { cols = some (appended_cols (with_hidden n v) n xlsx.cols) }) m e'
    ∙ (ap ok (width_hidden_any xlsx.cols n m v) ∙ sym (get_col_width-of col' xlsx m e')))

-- A column between two others, in either order.
abbrev pub between : ℤ → ℤ → ℤ → Bool
between a b m = (leb_ℤ a m && leb_ℤ m b) || (leb_ℤ b m && leb_ℤ m a)

abbrev pub lesser : ℤ → ℤ → ℤ
lesser a b = if ltb_ℤ b a then b else a

abbrev pub greater : ℤ → ℤ → ℤ
greater a b = if ltb_ℤ b a then a else b

width_range :
    (o : Option (List Col)) (a b m : ℤ) (w : ℕ)
    → width_of (some (cols_and o (with_width (lesser a b) (greater a b) w))) m
      ≡ (if between a b m then width_or_default w else width_of o m)
width_range none a b m w = unfold width_loop width_or_default in ground arith
width_range (some cs) a b m w =
    ap width_or_default (width_loop-append cs (with_width (lesser a b) (greater a b) w) m 0)
    ∙ ground arith

visible_range :
    (o : Option (List Col)) (a b m : ℤ) (w : ℕ)
    → visible_of (some (cols_and o (with_width (lesser a b) (greater a b) w))) m
      ≡ (if between a b m then true else visible_of o m)
visible_range none a b m w = unfold visible_loop in ground arith
visible_range (some cs) a b m w =
    visible_loop-append cs (with_width (lesser a b) (greater a b) w) m true ∙ ground arith

-- SetColWidth gives the width to every column between its two columns, whichever comes first,
-- and leaves the others; a width of zero is shown as the default.
pub get-set_col_width :
    (startcol endcol col : Bytes) (a b m : ℤ) (w : ℕ) (xlsx : Worksheet)
    → column_name_to_number startcol ≡ ok a
    → column_name_to_number endcol ≡ ok b
    → column_name_to_number col ≡ ok m
    → (set_col_width startcol endcol w xlsx >>= get_col_width col)
      ≡ ok (if between a b m then width_or_default w else width_of xlsx.cols m)
unfolding set_col_width
get-set_col_width startcol endcol col a b m w xlsx ea eb em = rw ea (
    rw eb (
      get_col_width-of col
        (record xlsx { cols = some (cols_and xlsx.cols (with_width (lesser a b) (greater a b) w)) })
        m em
      ∙ ap ok (width_range xlsx.cols a b m w)))

-- SetColWidth makes every column between its two columns visible, a hidden one too, and leaves
-- the visibility of the others.
pub set_col_width-shows :
    (startcol endcol col : Bytes) (a b m : ℤ) (w : ℕ) (xlsx : Worksheet)
    → column_name_to_number startcol ≡ ok a
    → column_name_to_number endcol ≡ ok b
    → column_name_to_number col ≡ ok m
    → (set_col_width startcol endcol w xlsx >>= get_col_visible col)
      ≡ ok (if between a b m then true else visible_of xlsx.cols m)
unfolding set_col_width
set_col_width-shows startcol endcol col a b m w xlsx ea eb em = rw ea (
    rw eb (
      get_col_visible-of col
        (record xlsx { cols = some (cols_and xlsx.cols (with_width (lesser a b) (greater a b) w)) })
        m em
      ∙ ap ok (visible_range xlsx.cols a b m w)))
