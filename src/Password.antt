-- ===== src/Password.antt =====
-- genSheetPasswd (lib.go). An int64 is its pattern of 64 bits; a text is the list of its runes.
pub mod Bits
pub mod Bound
use Prim.Native.Nat.{bit_or, bit_xor}
use excelize.Common.{
  ℕ, zero, suc, ◌+◌, ◌-◌, ◌*◌, ◌/◌, ◌%◌, ◌^◌, true, false, List, [], ◌∷◌, ltb, ◌==◌, if◌then◌else◌,
  Bytes,
}

-- `>> 15` on an int64.
abbrev pub shift_right_15 : ℕ → ℕ
shift_right_15 w = if ltb w (2 ^ 63) then w / 2 ^ 15 else w / 2 ^ 15 + (2 ^ 64 - 2 ^ 49)

-- One rune: its value shifted by the position, whose bits beyond bit 15 are rotated to the low end.
unfoldable pub rune_bits : ℕ → ℕ → ℕ
rune_bits v char_pos =
    let value = v * 2 ^ char_pos % 2 ^ 64 in bit_or (value % 2 ^ 15) (shift_right_15 value)

unfoldable pub passwd_loop : List ℕ → ℕ → ℕ → ℕ
unfolding rune_bits
passwd_loop [] char_pos password = password
passwd_loop (v ∷ vs) char_pos password =
    passwd_loop vs (suc char_pos) (bit_xor password (rune_bits v char_pos))

-- `len` of a text: the bytes of its runes in UTF-8.
unfoldable pub utf8_len : List ℕ → ℕ
utf8_len [] = 0
utf8_len (v ∷ vs) =
    (if ltb v 0x80 then 1 else if ltb v 0x800 then 2 else if ltb v 0x10000 then 3 else 4)
    + utf8_len vs

unfoldable pub passwd_hash : List ℕ → ℕ
unfolding passwd_loop utf8_len
passwd_hash s = bit_xor (bit_xor (passwd_loop s 1 0) (utf8_len s)) 0xCE4B

-- A digit of `strings.ToUpper(strconv.FormatInt(_, 16))`.
abbrev pub hex_digit : ℕ → ℕ
hex_digit d = if ltb d 10 then b'0' + d else b'A' + (d - 10)

-- A number below 2 ^ 64 has at most 16 digits.
unfoldable pub hex_loop : ℕ → ℕ → Bytes → Bytes
hex_loop zero n acc = acc
hex_loop (suc fuel) n acc = elim (n / 16 == 0) [
  | true ↦ hex_digit n ∷ acc
  | false ↦ hex_loop fuel (n / 16) (hex_digit (n % 16) ∷ acc)
]

unfoldable pub format_hex : ℕ → Bytes
unfolding hex_loop
format_hex w = if ltb w (2 ^ 63) then hex_loop 16 w [] else b'-' ∷ hex_loop 16 (2 ^ 64 - w) []

unfoldable pub gen_sheet_passwd : List ℕ → Bytes
unfolding passwd_hash format_hex
gen_sheet_passwd s = format_hex (passwd_hash s)
