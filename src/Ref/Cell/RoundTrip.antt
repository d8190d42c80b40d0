-- ===== src/Ref/Cell/RoundTrip.antt =====
-- Names that are built from a column and a row are read back.
use mathlib.Core.List.{cons-ne-nil}
use excelize.Common.{
  ℕ, suc, ◌≤◌, ◌<◌, ◌≡◌, refl, ap, ◌∙◌, ◌≢◌, false, none, some, [], ◌∷◌, ◌++◌, arith, length,
  length-append, take-length-append, drop-length-append, All, Bytes, is_alpha, upper, to_upper,
  ◌>>=◌, ok,
}
use excelize.Common.Int.{max_int, pos}
use excelize.Ref.Cell.{
  last_alpha, starts_alpha, accept_row, split_at, split_cell_name, norm_col, join_cell_name,
  cell_name_to_coordinates, coordinates_to_cell_name,
}
use excelize.Ref.Column.RoundTrip.{
  IsLetters, column_name, column_number_to_name-pos, column_name-IsUpperLetters,
  IsUpperLetters-IsLetters, column_name-ne-nil, column_name_to_number-column_name,
}
use excelize.Ref.Decimal.{format_nat, itoa}
use excelize.Ref.Decimal.RoundTrip.{IsDigits, format_nat-cons, format_nat-IsDigits, atoi-format_nat}

last_alpha-none : (s : Bytes) → All (λ c. is_alpha c ≡ false) s → last_alpha s ≡ none
unfolding last_alpha
last_alpha-none [] h = refl
last_alpha-none (c ∷ s) (hc, h) = rw (last_alpha-none s h, hc)

pub last_alpha-append :
    (c : ℕ) (l d : Bytes)
    → IsLetters (c ∷ l)
    → All (λ c. is_alpha c ≡ false) d
    → last_alpha ((c ∷ l) ++ d) ≡ some (length l)
unfolding last_alpha
last_alpha-append c [] d (hc, _) h = rw (last_alpha-none d h, hc)
last_alpha-append c (b ∷ l) d (hc, hl) h = rw (last_alpha-append b l d hl h)

IsDigits-no_alpha : (d : Bytes) → IsDigits d → All (λ c. is_alpha c ≡ false) d
IsDigits-no_alpha [] h = tt
IsDigits-no_alpha (c ∷ d) (hc, h) = (ground arith, IsDigits-no_alpha d h)

length-lt-append : (l : Bytes) (d : ℕ) (t : Bytes) → length l < length (l ++ d ∷ t)
length-lt-append l d t = omega (arith, length-append l (d ∷ t))

-- Letters with the digits of a positive row behind them split into the two.
pub split_cell_name-append :
    (l : Bytes) (r : ℕ)
    → l ≢ []
    → IsLetters l
    → 0 < r
    → r ≤ max_int
    → split_cell_name (l ++ itoa (pos r)) ≡ ok (l, pos r)
unfolding split_cell_name split_at accept_row starts_alpha itoa
split_cell_name-append [] r h _ _ _ = absurd (h refl)
split_cell_name-append (c ∷ l) r _ h pr le =
    let (d, t, e) = format_nat-cons r in
    rw (last_alpha-append c l (format_nat r) h (IsDigits-no_alpha _ (format_nat-IsDigits r)), h.0)
      (ground (
        arith,
        e,
        length-lt-append l d t,
        take-length-append l (format_nat r),
        drop-length-append l (format_nat r),
        atoi-format_nat r le,
      ))

-- The name of a positive column and a positive row.
unfoldable pub cell_name : ℕ → ℕ → Bytes
cell_name c r = column_name c ++ itoa (pos r)

pub coordinates_to_cell_name-pos :
    (c r : ℕ) → 0 < c → 0 < r → coordinates_to_cell_name (pos c) (pos r) ≡ ok (cell_name c r)
unfolding coordinates_to_cell_name cell_name
coordinates_to_cell_name-pos c r hc hr = ground (arith, column_number_to_name-pos c hc)

pub split_cell_name-cell_name :
    (c r : ℕ)
    → 0 < c
    → 0 < r
    → r ≤ max_int
    → split_cell_name (cell_name c r) ≡ ok (column_name c, pos r)
unfolding cell_name
split_cell_name-cell_name c r hc hr lr =
    split_cell_name-append (column_name c) r (column_name-ne-nil c hc)
      (IsUpperLetters-IsLetters _ (column_name-IsUpperLetters c)) hr lr

pub cell_name_to_coordinates-cell_name :
    (c r : ℕ)
    → 0 < c
    → c ≤ max_int
    → 0 < r
    → r ≤ max_int
    → cell_name_to_coordinates (cell_name c r) ≡ ok (pos c, pos r)
unfolding cell_name_to_coordinates
cell_name_to_coordinates-cell_name c r hc lc hr lr =
    rw (split_cell_name-cell_name c r hc hr lr, column_name_to_number-column_name c hc lc)

-- Different coordinates have different names.
pub cell_name_injective :
    (c r c' r' : ℕ)
    → 0 < c
    → c ≤ max_int
    → 0 < r
    → r ≤ max_int
    → 0 < c'
    → c' ≤ max_int
    → 0 < r'
    → r' ≤ max_int
    → cell_name c r ≡ cell_name c' r'
    → (c ≡ c') × (r ≡ r')
cell_name_injective c r c' r' hc lc hr lr hc' lc' hr' lr' e = ground (
  arith,
  cell_name_to_coordinates-cell_name c r hc lc hr lr,
  cell_name_to_coordinates-cell_name c' r' hc' lc' hr' lr',
  ap cell_name_to_coordinates e,
)

-- Coordinates from 1 to the largest int survive the way into a name and back.
pub coordinates-name :
    (c r : ℕ)
    → 0 < c
    → c ≤ max_int
    → 0 < r
    → r ≤ max_int
    → (coordinates_to_cell_name (pos c) (pos r) >>= cell_name_to_coordinates) ≡ ok (pos c, pos r)
coordinates-name c r hc lc hr lr =
    ap (λ n. n >>= cell_name_to_coordinates) (coordinates_to_cell_name-pos c r hc hr)
    ∙ cell_name_to_coordinates-cell_name c r hc lc hr lr

norm_col-letters : (s : Bytes) → IsLetters s → norm_col s ≡ to_upper s
unfolding norm_col
norm_col-letters [] h = refl
norm_col-letters (c ∷ s) (hc, h) = rw (hc, norm_col-letters s h)

pub to_upper-IsLetters : (s : Bytes) → IsLetters s → IsLetters (to_upper s)
to_upper-IsLetters [] h = tt
to_upper-IsLetters (c ∷ s) (hc, h) = (ground arith, to_upper-IsLetters s h)

length-to_upper : (s : Bytes) → length (to_upper s) ≡ length s
length-to_upper [] = refl
length-to_upper (c ∷ s) = ap suc (length-to_upper s)

pub join_cell_name-letters :
    (s : Bytes) (r : ℕ)
    → s ≢ []
    → IsLetters s
    → 0 < r
    → join_cell_name s (pos r) ≡ ok (to_upper s ++ itoa (pos r))
unfolding join_cell_name
join_cell_name-letters [] r h _ _ = absurd (h refl)
join_cell_name-letters (c ∷ s) r _ h pr =
    rw (norm_col-letters (c ∷ s) h, length-to_upper s) (ground arith)

-- What JoinCellName builds of letters and a row in range, SplitCellName takes apart again, the
-- letters in capitals.
pub split-join :
    (s : Bytes) (r : ℕ)
    → s ≢ []
    → IsLetters s
    → 0 < r
    → r ≤ max_int
    → (join_cell_name s (pos r) >>= split_cell_name) ≡ ok (to_upper s, pos r)
split-join [] r h _ _ _ = absurd (h refl)
split-join (c ∷ s) r ne h pr lr =
    ap (λ n. n >>= split_cell_name) (join_cell_name-letters (c ∷ s) r ne h pr)
    ∙ split_cell_name-append (to_upper (c ∷ s)) r (cons-ne-nil (upper c) (to_upper s))
        (to_upper-IsLetters (c ∷ s) h) pr lr
