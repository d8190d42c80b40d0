-- ===== src/Password/Bits.antt =====
-- Bounds on the native bit operations.
use Prim.Native.Nat.{max, differ, digits, bit_or, bit_xor, bit_or-bitwise, bit_xor-bitwise}
use excelize.Common.{ℕ, zero, suc, ◌/◌, ◌%◌, ◌^◌, ◌≤◌, ◌<◌, arith}

digits_bound :
    (f : ℕ → ℕ → ℕ) (n k a b : ℕ)
    → ((x y : ℕ) → x < 2 → y < 2 → f x y < 2)
    → a < 2 ^ k
    → b < 2 ^ k
    → digits (λ b. b) f n a b < 2 ^ k
digits_bound f zero k a b h la lb = lb
digits_bound f (suc n) k zero b h la lb = lb
digits_bound f (suc n) zero (suc a) b h la lb = absurd (omega arith)
digits_bound f (suc n) (suc k) (suc a) b h la lb =
    let rest = digits_bound f n k (suc a / 2) (b / 2) h (omega arith) (omega arith) in
    let low = h (suc a % 2) (b % 2) (omega arith) (omega arith) in omega (arith, rest, low)

differ_bit : (x y : ℕ) → x < 2 → y < 2 → differ x y < 2
differ_bit zero y h h' = h'
differ_bit (suc zero) zero h h' = omega arith
differ_bit (suc zero) (suc zero) h h' = omega arith
differ_bit (suc zero) (suc (suc y)) h h' = absurd (omega arith)
differ_bit (suc (suc x)) y h h' = absurd (omega arith)

pub bit_xor-lt : (k a b : ℕ) → a < 2 ^ k → b < 2 ^ k → bit_xor a b < 2 ^ k
bit_xor-lt k a b la lb =
    let bound = digits_bound differ a k a b differ_bit la lb in rw (bit_xor-bitwise a b) bound

pub bit_or-lt : (k a b : ℕ) → a < 2 ^ k → b < 2 ^ k → bit_or a b < 2 ^ k
bit_or-lt k a b la lb =
    let bound = digits_bound max a k a b (λ x y h h'. omega arith) la lb in
    rw (bit_or-bitwise a b) bound

-- The highest digit stays where only the second number has it.
digits_high : (n k a b : ℕ) → a < 2 ^ k → 2 ^ k ≤ b → 2 ^ k ≤ digits (λ b. b) differ n a b
digits_high zero k a b la lb = lb
digits_high (suc n) k zero b la lb = lb
digits_high (suc n) zero (suc a) b la lb = absurd (omega arith)
digits_high (suc n) (suc k) (suc a) b la lb =
    let rest = digits_high n k (suc a / 2) (b / 2) (omega arith) (omega arith) in
    omega (arith, rest)

pub bit_xor-high : (k a b : ℕ) → a < 2 ^ k → 2 ^ k ≤ b → 2 ^ k ≤ bit_xor a b
bit_xor-high k a b la lb = let bound = digits_high a k a b la lb in rw (bit_xor-bitwise a b) bound
