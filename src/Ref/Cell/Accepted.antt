-- ===== src/Ref/Cell/Accepted.antt =====
-- Which texts SplitCellName and CellNameToCoordinates accept.
use mathlib.Core.List.{cons-ne-nil}
use excelize.Common.{
  ℕ, zero, suc, ◌%◌, ◌≡◌, refl, sym, ap, ◌∙◌, ◌≢◌, inl, inr, Bool, true, false, ◌&&◌, none, some,
  List, [], ◌∷◌, ◌++◌, arith, Bool-cases, Option-cases, take, drop, All, Bytes, is_alpha, Result,
  ok, err, fault,
}
use excelize.Common.Int.{ℤ, word, signed64, ◌<ℤ◌, pos}
use excelize.Ref.Cell.{
  last_alpha, starts_alpha, accept_row, split_at, split_cell_name, wrap_err,
  cell_name_to_coordinates,
}
use excelize.Ref.Column.{column_name_to_number}
use excelize.Ref.Column.RoundTrip.{
  IsLetters, column_value, column_name_to_number-letters, refused_name,
}
use excelize.Ref.Decimal.{atoi}

last_alpha-none→All : (s : Bytes) → last_alpha s ≡ none → All (λ c. is_alpha c ≡ false) s
unfolding last_alpha
last_alpha-none→All [] h = tt
last_alpha-none→All (c ∷ s) h = elim (Option-cases (last_alpha s)) [
  | inl e ↦ (ground arith, last_alpha-none→All s e)
  | inr (j, e) ↦ absurd (ground arith)
]

last_alpha-rest :
    (s : Bytes) (i : ℕ) → last_alpha s ≡ some i → All (λ c. is_alpha c ≡ false) (drop (suc i) s)
unfolding last_alpha
last_alpha-rest [] i h = tt
last_alpha-rest (c ∷ s) i h = elim (Option-cases (last_alpha s)) [
  | inl e ↦ let z : i ≡ 0 = ground arith in rw z (last_alpha-none→All s e)
  | inr (j, e) ↦ let z : i ≡ suc j = ground arith in rw z (last_alpha-rest s j e)
]

take-append-drop {ℓ} : {A : Type ℓ} (n : ℕ) (xs : List A) → take n xs ++ drop n xs ≡ xs
take-append-drop zero xs = refl
take-append-drop (suc n) [] = refl
take-append-drop (suc n) (x ∷ xs) = ap (λ t. x ∷ t) (take-append-drop n xs)

split_at_sound :
    (s col : Bytes) (row : ℤ) (i : ℕ)
    → split_at s (some i) ≡ ok (col, row)
    → (col ≡ take (suc i) s) × (atoi (drop (suc i) s) ≡ some row) × (pos 0 <ℤ row)
unfolding split_at accept_row
split_at_sound s col row i h = elim (Option-cases (atoi (drop (suc i) s))) [
  | inl e ↦ absurd (ground arith)
  | inr (r, e) ↦ ground arith
]

starts_alpha-take : (s : Bytes) (i : ℕ) → starts_alpha (take (suc i) s) ≡ starts_alpha s
unfolding starts_alpha
starts_alpha-take [] i = refl
starts_alpha-take (c ∷ s) i = refl

split_cell_name-cases :
    (s col : Bytes) (row : ℤ)
    → split_cell_name s ≡ ok (col, row)
    → (i : ℕ) × (last_alpha s ≡ some i)
      × (starts_alpha s ≡ true)
      × (split_at s (some i) ≡ ok (col, row))
unfolding split_cell_name split_at
split_cell_name-cases s col row h = elim (Option-cases (last_alpha s)) [
  | inl e ↦ absurd (ground arith)
  | inr (i, e) ↦ (i, e, ground arith, ground arith)
]

-- A text that SplitCellName accepts is the column text, which begins with a letter, and behind it
-- a text without letters that Atoi reads as the row; the row is positive.
pub split_cell_name_sound :
    (s col : Bytes) (row : ℤ)
    → split_cell_name s ≡ ok (col, row)
    → (d : Bytes) × (s ≡ col ++ d)
      × (starts_alpha col ≡ true)
      × All (λ c. is_alpha c ≡ false) d
      × (atoi d ≡ some row)
      × (pos 0 <ℤ row)
split_cell_name_sound s col row h =
    let (i, last, st, e) = split_cell_name-cases s col row h in
    let (ec, ea, lt) = split_at_sound s col row i e in
    (
      drop (suc i) s,
      sym (take-append-drop (suc i) s) ∙ ap (λ t. t ++ drop (suc i) s) (sym ec),
      ap starts_alpha ec ∙ starts_alpha-take s i ∙ st,
      last_alpha-rest s i last,
      ea,
      lt,
    )

is_letters : Bytes → Bool
is_letters [] = true
is_letters (c ∷ s) = is_alpha c && is_letters s

is_letters→IsLetters : (s : Bytes) → is_letters s ≡ true → IsLetters s
unfolding is_letters
is_letters→IsLetters [] h = tt
is_letters→IsLetters (c ∷ s) h = (ground arith, is_letters→IsLetters s (ground arith))

IsLetters→is_letters : (s : Bytes) → IsLetters s → is_letters s ≡ true
unfolding is_letters
IsLetters→is_letters [] h = refl
IsLetters→is_letters (c ∷ s) (hc, h) = ground (arith, IsLetters→is_letters s h)

IsLetters-of_number :
    (s : Bytes) (z : ℤ)
    → column_name_to_number s ≡ ok z
    → IsLetters s × (z ≡ signed64 (column_value s % word))
IsLetters-of_number s z h = elim (Bool-cases (is_letters s)) [
  | inl y ↦ (is_letters→IsLetters s y, from_value s z h (is_letters→IsLetters s y))
  | inr n ↦ absurd (cc (h, refused_name s (inr (λ l. ground (arith, IsLetters→is_letters s l)))))
]
  where
    from_value :
        (s : Bytes) (z : ℤ)
        → column_name_to_number s ≡ ok z
        → IsLetters s
        → z ≡ signed64 (column_value s % word)
    from_value [] z h l = absurd (cc (h, refused_name [] (inl refl)))
    from_value (c ∷ s) z h l = cc (h, column_name_to_number-letters (c ∷ s) (cons-ne-nil c s) l)

coordinates-cases :
    (s : Bytes) (col row : ℤ)
    → cell_name_to_coordinates s ≡ ok (col, row)
    → (l : Bytes) × (split_cell_name s ≡ ok (l, row)) × (column_name_to_number l ≡ ok col)
unfolding cell_name_to_coordinates wrap_err
coordinates-cases s col row h = go (split_cell_name s) refl
  where
    go :
        (r : Result (Bytes × ℤ))
        → split_cell_name s ≡ r
        → (l : Bytes) × (split_cell_name s ≡ ok (l, row)) × (column_name_to_number l ≡ ok col)
    go (ok (l, r)) e = (l, ground (arith, h, e), ground (arith, h, e))
    go (err x) e = absurd (ground arith)
    go fault e = absurd (ground arith)

-- A text that CellNameToCoordinates accepts is one or more letters and behind them a text that
-- Atoi reads as the row; the row is positive, and the column is the base 26 reading of the
-- letters, wrapped to 64 bits.
pub cell_name_to_coordinates_sound :
    (s : Bytes) (col row : ℤ)
    → cell_name_to_coordinates s ≡ ok (col, row)
    → (l d : Bytes) × (s ≡ l ++ d)
      × (l ≢ [])
      × IsLetters l
      × (col ≡ signed64 (column_value l % word))
      × (atoi d ≡ some row)
      × (pos 0 <ℤ row)
cell_name_to_coordinates_sound s col row h =
    let (l, hs, hn) = coordinates-cases s col row h in
    let (d, e, st, na, ea, lt) = split_cell_name_sound s l row hs in
    let (hl, v) = IsLetters-of_number l col hn in
    (l, d, e, λ z. starts_not_nil l st z, hl, v, ea, lt)
  where
    starts_not_nil : (l : Bytes) → starts_alpha l ≡ true → l ≢ []
    starts_not_nil [] st = unfold starts_alpha in absurd (ground arith)
    starts_not_nil (c ∷ l) st = cons-ne-nil c l
