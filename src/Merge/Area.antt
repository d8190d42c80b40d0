-- ===== src/Merge/Area.antt =====
-- Areas as numbers: the rectangle of a reference, and the reference of a rectangle.
use mathlib.Core.List.{map-append}
use mathlib.Core.Path.{ap₂}
use excelize.Common.{
  ℕ, ◌≤◌, ◌<◌, ◌≡◌, refl, ◌∙◌, Bool, false, ◌&&◌, [], ◌∷◌, ◌++◌, arith, leb, ◌==◌, All, All-append,
  Bytes, upper, to_upper, ok,
}
use excelize.Common.Int.{max_int}
use excelize.Merge.{split_cons, split, in_range, check_cell_in_area}
use excelize.Ref.Cell.{coordinates_or}
use excelize.Ref.Cell.RoundTrip.{cell_name, cell_name_to_coordinates-cell_name}
use excelize.Ref.Column.RoundTrip.{IsUpperLetters, column_name, column_name-IsUpperLetters}
use excelize.Ref.Decimal.{format_nat, itoa}
use excelize.Ref.Decimal.RoundTrip.{IsDigits, format_nat-IsDigits}

pub record Area : Type 0 where
  pub c1 : ℕ
  pub r1 : ℕ
  pub c2 : ℕ
  pub r2 : ℕ

-- Coordinates within an int; first and last need not be in order.
pub record IsArea (a : Area) : Type 0 where
  pub c1_pos : 0 < a.c1
  pub c1_max : a.c1 ≤ max_int
  pub r1_pos : 0 < a.r1
  pub r1_max : a.r1 ≤ max_int
  pub c2_pos : 0 < a.c2
  pub c2_max : a.c2 ≤ max_int
  pub r2_pos : 0 < a.r2
  pub r2_max : a.r2 ≤ max_int

abbrev pub first_cell : Area → Bytes
first_cell a = cell_name a.c1 a.r1

abbrev pub last_cell : Area → Bytes
last_cell a = cell_name a.c2 a.r2

abbrev pub area_ref : Area → Bytes
area_ref a = first_cell a ++ b':' ∷ last_cell a

-- A cell lies in an area.
abbrev pub covers : Area → ℕ → ℕ → Bool
covers a c r = leb a.c1 c && leb c a.c2 && leb a.r1 r && leb r a.r2

abbrev pub NoColon : Bytes → Type 0
NoColon = All (λ c. (c == b':') ≡ false)

split-nocolon : (s : Bytes) → NoColon s → split s b':' ≡ s ∷ []
unfolding split split_cons
split-nocolon [] h = refl
split-nocolon (c ∷ s) (hc, h) = rw (hc, split-nocolon s h)

split-append : (s t : Bytes) → NoColon s → NoColon t → split (s ++ b':' ∷ t) b':' ≡ s ∷ t ∷ []
unfolding split split_cons
split-append [] t hs ht = rw (split-nocolon t ht)
split-append (c ∷ s) t (hc, hs) ht = rw (hc, split-append s t hs ht)

upper-NoColon : (s : Bytes) → IsUpperLetters s → NoColon s
upper-NoColon [] h = tt
upper-NoColon (c ∷ s) (hc, h) = (ground arith, upper-NoColon s h)

digits-NoColon : (s : Bytes) → IsDigits s → NoColon s
digits-NoColon [] h = tt
digits-NoColon (c ∷ s) (hc, h) = (ground arith, digits-NoColon s h)

cell_name-NoColon : (c r : ℕ) → NoColon (cell_name c r)
unfolding cell_name itoa
cell_name-NoColon c r =
    All-append _ (column_name c) (format_nat r) (upper-NoColon _ (column_name-IsUpperLetters c))
      (digits-NoColon _ (format_nat-IsDigits r))

pub split-area_ref : (a : Area) → split (area_ref a) b':' ≡ first_cell a ∷ last_cell a ∷ []
split-area_ref a =
    split-append (first_cell a) (last_cell a) (cell_name-NoColon a.c1 a.r1)
      (cell_name-NoColon a.c2 a.r2)

pub upper_idem : (s : Bytes) → IsUpperLetters s → to_upper s ≡ s
upper_idem [] h = refl
upper_idem (c ∷ s) (hc, h) = ap₂ (λ (x : ℕ) y. x ∷ y) (ground arith) (upper_idem s h)

digits_upper : (s : Bytes) → IsDigits s → to_upper s ≡ s
digits_upper [] h = refl
digits_upper (c ∷ s) (hc, h) = ap₂ (λ (x : ℕ) y. x ∷ y) (ground arith) (digits_upper s h)

pub to_upper-cell_name : (c r : ℕ) → to_upper (cell_name c r) ≡ cell_name c r
unfolding cell_name itoa
to_upper-cell_name c r =
    map-append upper (column_name c) (format_nat r)
    ∙ ap₂ (λ (x : Bytes) y. x ++ y) (upper_idem _ (column_name-IsUpperLetters c))
        (digits_upper _ (format_nat-IsDigits r))

-- A cell with coordinates in range is found to lie in the area of a reference exactly if its
-- coordinates lie between those of the corners.
pub check_cell_in_area-covers :
    (a : Area) (c r : ℕ)
    → IsArea a
    → 0 < c
    → c ≤ max_int
    → 0 < r
    → r ≤ max_int
    → check_cell_in_area (cell_name c r) (area_ref a) ≡ ok (covers a c r)
unfolding check_cell_in_area in_range coordinates_or
check_cell_in_area-covers a c r v hc lc hr lr =
    rw
      (
        split-area_ref a,
        cell_name_to_coordinates-cell_name c r hc lc hr lr,
        cell_name_to_coordinates-cell_name a.c1 a.r1 v.c1_pos v.c1_max v.r1_pos v.r1_max,
        cell_name_to_coordinates-cell_name a.c2 a.r2 v.c2_pos v.c2_max v.r2_pos v.r2_max,
      )
      (ground arith)
