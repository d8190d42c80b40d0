-- ===== src/Ref/Decimal/RoundTrip.antt =====
-- A printed number is read back, and its print holds digits alone.
use excelize.Common.{
  ℕ, zero, suc, ◌+◌, ◌/◌, ◌%◌, ◌≤◌, ◌<◌, ◌≡◌, refl, inl, inr, true, some, [], ◌∷◌, arith, leb,
  Bool-cases, All, Bytes, is_digit,
}
use excelize.Common.Int.{max_int, pos}
use excelize.Ref.Decimal.{emit, format_nat, scan, atoi}

abbrev pub IsDigits : Bytes → Type 0
IsDigits = All (λ c. is_digit c ≡ true)

emit-IsDigits : (fuel n : ℕ) (out : Bytes) → IsDigits out → IsDigits (emit fuel n out)
unfolding emit
emit-IsDigits zero n out h = h
emit-IsDigits (suc fuel) n out h =
    ground (arith, emit-IsDigits fuel (n / 10) ((b'0' + n % 10) ∷ out))

emit-ne-nil :
    (fuel n : ℕ) (c : ℕ) (out : Bytes) → (d : ℕ) × (t : Bytes) × (emit fuel n (c ∷ out) ≡ d ∷ t)
unfolding emit
emit-ne-nil zero n c out = (c, out, refl)
emit-ne-nil (suc fuel) n c out = elim (Bool-cases (leb n 9)) [
  | inl small ↦ (b'0' + n, c ∷ out, ground arith)
  | inr big ↦
      let (d, t, e) = emit-ne-nil fuel (n / 10) (b'0' + n % 10) (c ∷ out) in (d, t, ground arith)
]

scan-emit : (fuel n : ℕ) (out : Bytes) → n < fuel → scan (emit fuel n out) 0 ≡ scan out n
unfolding emit scan
scan-emit zero n out h = absurd (omega arith)
scan-emit (suc fuel) n out h = elim (Bool-cases (leb n 9)) [
  | inl small ↦ ground arith
  | inr big ↦ ground (arith, scan-emit fuel (n / 10) ((b'0' + n % 10) ∷ out))
]

pub format_nat-cons : (n : ℕ) → (d : ℕ) × (t : Bytes) × (format_nat n ≡ d ∷ t)
unfolding format_nat
format_nat-cons n = elim (Bool-cases (leb n 9)) [
  | inl small ↦ (b'0' + n, [], ground arith)
  | inr big ↦ let (d, t, e) = emit-ne-nil n (n / 10) (b'0' + n % 10) [] in (d, t, ground arith)
]

pub format_nat-IsDigits : (n : ℕ) → IsDigits (format_nat n)
unfolding format_nat
format_nat-IsDigits n = emit-IsDigits (suc n) n [] tt

pub scan-format_nat : (n : ℕ) → scan (format_nat n) 0 ≡ some n
unfolding format_nat scan
scan-format_nat n = scan-emit (suc n) n [] (omega arith)

-- Every number within range that is printed is read back.
pub atoi-format_nat : (n : ℕ) → n ≤ max_int → atoi (format_nat n) ≡ some (pos n)
atoi-format_nat n h =
    let (d, t, e) = format_nat-cons n in
    unfold atoi in ground (arith, e, format_nat-IsDigits n, scan-format_nat n)
