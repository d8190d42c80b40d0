-- ===== src/Password/Bound.antt =====
-- The hash of a password has four hexadecimal digits.
use Prim.Native.Nat.{bit_xor}
use native.Mathlib.Nat.{mul-le-mul_left, pow-le-pow_right}
use excelize.Common.{
  ℕ, suc, ◌+◌, ◌*◌, ◌/◌, ◌%◌, ◌^◌, ◌≤◌, ◌<◌, ◌≡◌, refl, Bool, true, false, ◌&&◌, ◌||◌, List, [],
  ◌∷◌, arith, ltb, leb, ◌==◌, length, is_digit,
}
use excelize.Password.{
  shift_right_15, rune_bits, passwd_loop, utf8_len, passwd_hash, hex_digit, hex_loop, format_hex,
  gen_sheet_passwd,
}
use excelize.Password.Bits.{bit_xor-lt, bit_or-lt, bit_xor-high}

-- A text of ASCII runes.
abbrev pub IsAscii : List ℕ → Type 0
IsAscii [] = Unit
IsAscii (v ∷ vs) = (v < 128) × IsAscii vs

shifted : (v p : ℕ) → p ≤ 15 → v * 2 ^ p ≤ v * 2 ^ 15
shifted v p h = mul-le-mul_left v (pow-le-pow_right {n = 2} (omega arith) h)

rotated-lt : (v w : ℕ) → v < 128 → w ≤ v * 2 ^ 15 → shift_right_15 (w % 2 ^ 64) < 2 ^ 15
rotated-lt v w hv le = ground arith

rune_bits-lt : (v char_pos : ℕ) → v < 128 → char_pos ≤ 15 → rune_bits v char_pos < 2 ^ 15
unfolding rune_bits
rune_bits-lt v char_pos hv hp =
    let value = v * 2 ^ char_pos % 2 ^ 64 in
    bit_or-lt 15 (value % 2 ^ 15) (shift_right_15 value) (omega arith)
      (rotated-lt v (v * 2 ^ char_pos) hv (shifted v char_pos hp))

passwd_loop-lt :
    (s : List ℕ) (char_pos password : ℕ)
    → IsAscii s
    → length s + char_pos ≤ 16
    → password < 2 ^ 15
    → passwd_loop s char_pos password < 2 ^ 15
unfolding passwd_loop
passwd_loop-lt [] char_pos password h le lt = lt
passwd_loop-lt (v ∷ vs) char_pos password (hv, h) le lt =
    passwd_loop-lt vs (suc char_pos) (bit_xor password (rune_bits v char_pos)) h (omega arith)
      (bit_xor-lt 15 password (rune_bits v char_pos) lt (rune_bits-lt v char_pos hv (omega arith)))

utf8_len-ascii : (s : List ℕ) → IsAscii s → utf8_len s ≡ length s
unfolding utf8_len
utf8_len-ascii [] h = refl
utf8_len-ascii (v ∷ vs) (hv, h) = ground (arith, utf8_len-ascii vs h)

passwd_hash-range :
    (s : List ℕ) → IsAscii s → length s ≤ 15 → (2 ^ 15 ≤ passwd_hash s) × (passwd_hash s < 2 ^ 16)
unfolding passwd_hash
passwd_hash-range s h le =
    let low =
      bit_xor-lt 15 (passwd_loop s 1 0) (utf8_len s)
        (passwd_loop-lt s 1 0 h (omega arith) (omega arith))
        (let e = utf8_len-ascii s h in omega (arith, e)) in
    (
      bit_xor-high 15 (bit_xor (passwd_loop s 1 0) (utf8_len s)) 0xCE4B low (omega arith),
      bit_xor-lt 16 (bit_xor (passwd_loop s 1 0) (utf8_len s)) 0xCE4B (omega (arith, low))
          (omega arith),
    )

-- Four digits for a number between 2 ^ 12 and 2 ^ 16.
format_hex-four :
    (n : ℕ)
    → 2 ^ 12 ≤ n
    → n < 2 ^ 16
    → format_hex n
      ≡ hex_digit (n / 16 / 16 / 16)
        ∷ hex_digit (n / 16 / 16 % 16)
        ∷ hex_digit (n / 16 % 16)
        ∷ hex_digit (n % 16)
        ∷ []
unfolding format_hex hex_loop
format_hex-four n lo hi =
    let small : ltb n (2 ^ 63) ≡ true = ground arith in
    let e1 : (n / 16 == 0) ≡ false = ground arith in
    let e2 : (n / 16 / 16 == 0) ≡ false = ground arith in
    let e3 : (n / 16 / 16 / 16 == 0) ≡ false = ground arith in
    let e4 : (n / 16 / 16 / 16 / 16 == 0) ≡ true = ground arith in
    rw (format_hex, small, hex_loop, e1, e2, e3, e4) refl

abbrev pub is_hex_digit : ℕ → Bool
is_hex_digit c = is_digit c || (leb b'A' c && leb c b'F')

hex_digit-IsHex : (d : ℕ) → d < 16 → is_hex_digit (hex_digit d) ≡ true
hex_digit-IsHex d h = ground arith

-- The password of an ASCII text of at most 15 characters is written with exactly four hexadecimal
-- digits, as the schema asks.
pub gen_sheet_passwd-four :
    (s : List ℕ)
    → IsAscii s
    → length s ≤ 15
    → (a : ℕ) × (b : ℕ) × (c : ℕ) × (d : ℕ) × (gen_sheet_passwd s ≡ a ∷ b ∷ c ∷ d ∷ [])
      × ((is_hex_digit a && is_hex_digit b && is_hex_digit c && is_hex_digit d) ≡ true)
unfolding gen_sheet_passwd
gen_sheet_passwd-four s h le =
    let (lo, hi) = passwd_hash-range s h le in
    let n = passwd_hash s in
    (
      hex_digit (n / 16 / 16 / 16),
      hex_digit (n / 16 / 16 % 16),
      hex_digit (n / 16 % 16),
      hex_digit (n % 16),
      format_hex-four n (omega (arith, lo)) hi,
      rw
          (
            hex_digit-IsHex (n / 16 / 16 / 16) (omega (arith, hi)),
            hex_digit-IsHex (n / 16 / 16 % 16) (omega arith),
            hex_digit-IsHex (n / 16 % 16) (omega arith),
            hex_digit-IsHex (n % 16) (omega arith),
          )
          refl,
    )
