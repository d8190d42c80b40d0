-- ===== src/Ref/Column/RoundTrip.antt =====
-- Column names are the numbers from 1 on, written to base 26 with the digits A to Z.
use mathlib.Core.List.{append_assoc, append-nil, reverse-append, reverse-reverse, map-append}
use native.Mathlib.Nat.{div-add-mod}
use mathlib.Core.Path.{subst}
use excelize.Common.{
  ℕ, zero, suc, ◌+◌, ◌-◌, ◌*◌, ◌/◌, ◌%◌, ◌≤◌, ◌<◌, ◌≡◌, refl, sym, ap, ◌∙◌, ◌≢◌, ◌⊎◌, inl, inr,
  true, false, none, some, [], ◌∷◌, ◌++◌, map, reverse, arith, ltb, if◌then◌else◌, Bool-cases, All,
  All-append, Bytes, is_upper, is_alpha, upper, to_upper, ◌>>=◌, invalid_column_name, ok, err,
}
use excelize.Common.Int.{word, max_int, signed64, pos}
use excelize.Ref.Column.{
  number_loop, number_result, column_name_to_number, name_loop, column_number_to_name,
}

abbrev pub IsLetters : Bytes → Type 0
IsLetters = All (λ c. is_alpha c ≡ true)

-- The place of a letter in the alphabet, from 1.
abbrev pub letter_value : ℕ → ℕ
letter_value c = upper c - b'A' + 1

-- The number of a name whose last letter comes first.
abbrev pub little_value : Bytes → ℕ
little_value [] = 0
little_value (c ∷ s) = letter_value c + 26 * little_value s

-- The number of a name, unbounded: the independent reading of ColumnNameToNumber.
abbrev pub column_value : Bytes → ℕ
column_value s = little_value (reverse s)

mod_step : (c d m : ℕ) → (c % word + d * (m % word)) % word ≡ (c + d * m) % word
mod_step c d m = omega (arith, ap (λ (t : ℕ). d * t) (div-add-mod m word))

mod_shift : (m : ℕ) → m % word * 26 % word ≡ m * 26 % word
mod_shift m = omega arith

regroup : (c d m v : ℕ) → c + d * m + m * 26 * v ≡ c + m * (d + 26 * v)
regroup c d m v = grind arith

number_loop-step :
    (r : ℕ) (rest : Bytes) (c m : ℕ)
    → is_alpha r ≡ true
    → number_loop (r ∷ rest) (c % word) (m % word)
      ≡ number_loop rest ((c + letter_value r * m) % word) (m * 26 % word)
number_loop-step r rest c m h = elim (Bool-cases (is_upper r)) [
  | inl up ↦ unfold number_loop in ground (arith, mod_step c (letter_value r) m, mod_shift m)
  | inr not_up ↦ unfold number_loop in ground (arith, mod_step c (letter_value r) m, mod_shift m)
]

number_loop_lem :
    (s : Bytes) (c m : ℕ)
    → IsLetters s
    → number_loop s (c % word) (m % word) ≡ some ((c + m * little_value s) % word)
number_loop_lem [] c m h = unfold number_loop in ground arith
number_loop_lem (r ∷ rest) c m (hr, h) =
    number_loop-step r rest c m hr
    ∙ number_loop_lem rest (c + letter_value r * m) (m * 26) h
    ∙ ap (λ t. some (t % word)) (regroup c (letter_value r) m (little_value rest))

number_loop_stops :
    (r : ℕ) (rest : Bytes) (c m : ℕ) → is_alpha r ≡ false → number_loop (r ∷ rest) c m ≡ none
unfolding number_loop
number_loop_stops r rest c m h = ground arith

reverse-IsLetters : (s : Bytes) → IsLetters s → IsLetters (reverse s)
reverse-IsLetters [] h = tt
reverse-IsLetters (c ∷ s) (hc, h) =
    subst IsLetters (sym (reverse-append (c ∷ []) s))
      (All-append _ (reverse s) (c ∷ []) (reverse-IsLetters s h) (hc, tt))

-- Every non-empty name of letters has the 64-bit wrap of its base 26 reading as its number.
pub column_name_to_number-letters :
    (s : Bytes)
    → s ≢ []
    → IsLetters s
    → column_name_to_number s ≡ ok (signed64 (column_value s % word))
unfolding column_name_to_number
column_name_to_number-letters [] h _ = absurd (h refl)
column_name_to_number-letters (c ∷ s) _ h =
    ap (number_result (c ∷ s)) (number_loop_lem (reverse (c ∷ s)) 0 1 (reverse-IsLetters (c ∷ s) h))
    ∙ ap (λ t. ok (signed64 (t % word))) (omega arith)

-- The letters of a number, the last one first.
letters : ℕ → ℕ → Bytes
letters zero n = []
letters (suc fuel) n =
    let more = ((n - 1) % 26 + 65) ∷ letters fuel ((n - 1) / 26) in if ltb 0 n then more else []

name_loop-letters :
    (fuel n : ℕ) (col : Bytes) → name_loop fuel n col ≡ reverse (letters fuel n) ++ col
unfolding name_loop letters
name_loop-letters zero n col = refl
name_loop-letters (suc fuel) n col = elim (Bool-cases (ltb 0 n)) [
  | inl go ↦
      rw (go, name_loop-letters fuel ((n - 1) / 26) (((n - 1) % 26 + 65) ∷ col))
        (simp
          (reverse-append (((n - 1) % 26 + 65) ∷ []) (letters fuel ((n - 1) / 26)), append_assoc))
  | inr stop ↦ rw stop
]

little_value-letters : (fuel n : ℕ) → n ≤ fuel → little_value (letters fuel n) ≡ n
unfolding letters
little_value-letters zero n h = omega arith
little_value-letters (suc fuel) n h = elim (Bool-cases (ltb 0 n)) [
  | inl go ↦ ground (arith, little_value-letters fuel ((n - 1) / 26))
  | inr stop ↦ ground arith
]

abbrev pub IsUpperLetters : Bytes → Type 0
IsUpperLetters = All (λ c. is_upper c ≡ true)

letters-IsUpperLetters : (fuel n : ℕ) → IsUpperLetters (letters fuel n)
unfolding letters
letters-IsUpperLetters zero n = tt
letters-IsUpperLetters (suc fuel) n = ground (arith, letters-IsUpperLetters fuel ((n - 1) / 26))

letters-little_value :
    (fuel : ℕ) (s : Bytes)
    → IsLetters s
    → little_value s ≤ fuel
    → letters fuel (little_value s) ≡ to_upper s
unfolding letters
letters-little_value zero [] h _ = refl
letters-little_value zero (c ∷ s) h le = absurd (omega arith)
letters-little_value (suc fuel) [] h _ = refl
letters-little_value (suc fuel) (c ∷ s) (hc, h) le = ground (arith, letters-little_value fuel s h)

All-reverse {κ} : (P : ℕ → Type κ) (s : Bytes) → All P s → All P (reverse s)
All-reverse P [] h = tt
All-reverse P (c ∷ s) (hc, h) =
    subst (All P) (sym (reverse-append (c ∷ []) s))
      (All-append P (reverse s) (c ∷ []) (All-reverse P s h) (hc, tt))

map-reverse : (f : ℕ → ℕ) (s : Bytes) → map f (reverse s) ≡ reverse (map f s)
map-reverse f [] = refl
map-reverse f (c ∷ s) =
    rw (reverse-append (c ∷ []) s, map-append, map-reverse f s, reverse-append (f c ∷ []) (map f s))

-- The name that ColumnNumberToName gives a positive number.
pub column_name : ℕ → Bytes
column_name n = reverse (letters n n)

pub column_number_to_name-pos : (n : ℕ) → 0 < n → column_number_to_name (pos n) ≡ ok (column_name n)
unfolding column_number_to_name column_name
column_number_to_name-pos zero h = absurd (omega arith)
column_number_to_name-pos (suc n) h =
    ap ok (name_loop-letters (suc n) (suc n) [] ∙ append-nil (reverse (letters (suc n) (suc n))))

pub column_name-IsUpperLetters : (n : ℕ) → IsUpperLetters (column_name n)
unfolding column_name
column_name-IsUpperLetters n = All-reverse _ (letters n n) (letters-IsUpperLetters n n)

pub column_name-value : (n : ℕ) → column_value (column_name n) ≡ n
unfolding column_name
column_name-value n =
    ap little_value (reverse-reverse (letters n n)) ∙ little_value-letters n n (omega arith)

pub IsUpperLetters-IsLetters : (s : Bytes) → IsUpperLetters s → IsLetters s
IsUpperLetters-IsLetters [] h = tt
IsUpperLetters-IsLetters (c ∷ s) (hc, h) = (ground arith, IsUpperLetters-IsLetters s h)

pub column_name-ne-nil : (n : ℕ) → 0 < n → column_name n ≢ []
column_name-ne-nil n h e =
    let v : n ≡ 0 = sym (column_name-value n) ∙ ap column_value e in absurd (omega arith)

pub column_name_to_number-column_name :
    (n : ℕ) → 0 < n → n ≤ max_int → column_name_to_number (column_name n) ≡ ok (pos n)
column_name_to_number-column_name n h le =
    column_name_to_number-letters (column_name n) (column_name-ne-nil n h)
      (IsUpperLetters-IsLetters _ (column_name-IsUpperLetters n))
    ∙ ap (λ t. ok (signed64 (t % word))) (column_name-value n)
    ∙ ground arith

-- A column number from 1 to the largest int is read back from its name.
pub number-name :
    (n : ℕ)
    → 0 < n
    → n ≤ max_int
    → (column_number_to_name (pos n) >>= column_name_to_number) ≡ ok (pos n)
number-name n h le =
    ap (λ r. r >>= column_name_to_number) (column_number_to_name-pos n h)
    ∙ column_name_to_number-column_name n h le

little_value-pos : (s : Bytes) → s ≢ [] → 0 < little_value s
little_value-pos [] h = absurd (h refl)
little_value-pos (c ∷ s) h = omega arith

reverse-ne-nil : (s : Bytes) → s ≢ [] → reverse s ≢ []
reverse-ne-nil s h e = h (sym (reverse-reverse s) ∙ ap reverse e)

pub column_value-pos : (s : Bytes) → s ≢ [] → 0 < column_value s
column_value-pos s h = little_value-pos (reverse s) (reverse-ne-nil s h)

column_name-column_value : (s : Bytes) → IsLetters s → column_name (column_value s) ≡ to_upper s
unfolding column_name
column_name-column_value s h =
    ap reverse (letters-little_value _ (reverse s) (reverse-IsLetters s h) (omega arith))
    ∙ ap reverse (map-reverse upper s)
    ∙ reverse-reverse (to_upper s)

pub column_name_to_number-small :
    (s : Bytes)
    → s ≢ []
    → IsLetters s
    → column_value s ≤ max_int
    → column_name_to_number s ≡ ok (pos (column_value s))
column_name_to_number-small s ne h le = column_name_to_number-letters s ne h ∙ ground arith

-- A name of letters whose number is at most the largest int comes back in capitals.
pub name-number :
    (s : Bytes)
    → s ≢ []
    → IsLetters s
    → column_value s ≤ max_int
    → (column_name_to_number s >>= column_number_to_name) ≡ ok (to_upper s)
name-number s ne h le =
    ap (λ r. r >>= column_number_to_name) (column_name_to_number-small s ne h le)
    ∙ column_number_to_name-pos (column_value s) (column_value-pos s ne)
    ∙ ap ok (column_name-column_value s h)

number_loop-stops_at : (s : Bytes) (c m : ℕ) → ¬ IsLetters s → number_loop s c m ≡ none
unfolding number_loop
number_loop-stops_at [] c m h = absurd (h tt)
number_loop-stops_at (r ∷ rest) c m h = elim (Bool-cases (is_alpha r)) [
  | inl letter ↦ ground (
    arith,
    number_loop-stops_at rest ((c + (r - b'A' + 1) * m) % word) (m * 26 % word)
        (λ t. h (letter, t)),
    number_loop-stops_at rest ((c + (r - b'a' + 1) * m) % word) (m * 26 % word)
        (λ t. h (letter, t)),
  )
  | inr other ↦ number_loop_stops r rest c m other
]

pub refused_name :
    (s : Bytes) → (s ≡ []) ⊎ (¬ IsLetters s) → column_name_to_number s ≡ err (invalid_column_name s)
unfolding column_name_to_number
refused_name [] h = refl
refused_name (c ∷ s) (inl e) = cc
refused_name (c ∷ s) (inr h) = ap (number_result (c ∷ s)) (
    number_loop-stops_at (reverse (c ∷ s)) 0 1
      (λ t. h (subst IsLetters (reverse-reverse (c ∷ s)) (reverse-IsLetters (reverse (c ∷ s)) t))))

IsLetters-cases : (s : Bytes) → IsLetters s ⊎ (¬ IsLetters s)
IsLetters-cases [] = inl tt
IsLetters-cases (c ∷ s) = elim (Bool-cases (is_alpha c)) [
  | inl letter ↦ elim (IsLetters-cases s) [
    | inl h ↦ inl (letter, h)
    | inr not_all ↦ inr (λ h. not_all h.1)
  ]
  | inr other ↦ inr (λ h. cc)
]

-- Exactly the empty name and a name with a byte that is no ASCII letter are refused: any other name
-- has a number, the 64-bit wrap of its base 26 reading.
pub column_name_to_number_refuses :
    (s : Bytes)
    → (((s ≡ []) ⊎ (¬ IsLetters s)) × (column_name_to_number s ≡ err (invalid_column_name s)))
      ⊎ ((s ≢ []) × IsLetters s × (column_name_to_number s ≡ ok (signed64 (column_value s % word))))
column_name_to_number_refuses [] = inl (inl refl, refused_name [] (inl refl))
column_name_to_number_refuses (c ∷ s) = elim (IsLetters-cases (c ∷ s)) [
  | inl h ↦
      let some_letter : c ∷ s ≢ [] = λ e. cc in
      inr (some_letter, h, column_name_to_number-letters (c ∷ s) some_letter h)
  | inr not_all ↦ inl (inr not_all, refused_name (c ∷ s) (inr not_all))
]
