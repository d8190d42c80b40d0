-- ===== src/Workbook/Targets.antt =====
-- The number in the name of a sheet's file, and in the id of a relationship, is read back.
use excelize.Common.{
  ℕ, ◌+◌, ◌-◌, ◌*◌, ◌≤◌, ◌<◌, ◌≡◌, refl, ap, ◌∙◌, true, some, [], ◌∷◌, ◌++◌, arith, leb, length,
  length-append, take-length-append, drop-length-append, Bytes, codes, str_eq_refl,
}
use excelize.Common.Int.{word, max_int, pos}
use excelize.Ref.Decimal.{format_nat, itoa, scan, scan_clamped, clamped, atoi_value}
use excelize.Ref.Decimal.RoundTrip.{format_nat-cons, format_nat-IsDigits, scan-format_nat}
use excelize.Workbook.Create.{rel_name}
use excelize.Workbook.Lookup.{behind}
use excelize.Workbook.Names.{trim_prefix, trim_suffix, sheet_target, target_index}

scan-ge : (s : Bytes) (n k : ℕ) → scan s n ≡ some k → n ≤ k
unfolding scan
scan-ge [] n k h = ground arith
scan-ge (c ∷ s) n k h = ground (arith, scan-ge s (n * 10 + (c - b'0')) k)

scan_clamped-scan : (s : Bytes) (n k : ℕ) → scan s n ≡ some k → k < word → scan_clamped s n ≡ k
unfolding scan scan_clamped
scan_clamped-scan [] n k h lt = ground arith
scan_clamped-scan (c ∷ s) n k h lt =
    ground (arith, scan-ge s (n * 10 + (c - b'0')) k, scan_clamped-scan s (n * 10 + (c - b'0')) k)

pub atoi_value-format_nat : (n : ℕ) → n ≤ max_int → atoi_value (format_nat n) ≡ pos n
unfolding atoi_value clamped
atoi_value-format_nat n h =
    let (d, t, e) = format_nat-cons n in
    ground
      (arith, e, format_nat-IsDigits n, scan-format_nat n, scan_clamped-scan (format_nat n) 0 n)

pub trim_suffix-append : (s p : Bytes) → trim_suffix (s ++ p) p ≡ s
unfolding trim_suffix
trim_suffix-append s p =
    let l = length-append s p in
    let e : length (s ++ p) - length p ≡ length s = omega (arith, l) in
    let le : leb (length p) (length (s ++ p)) ≡ true = ground (arith, l) in
    rw (le, e, drop-length-append s p, take-length-append s p, str_eq_refl p)

pub target_index-sheet_target : (n : ℕ) → n ≤ max_int → target_index (sheet_target (pos n)) ≡ pos n
unfolding target_index trim_prefix sheet_target itoa
target_index-sheet_target n h =
    ap atoi_value (trim_suffix-append (format_nat n) (codes ".xml")) ∙ atoi_value-format_nat n h

pub rel_number :
    (n : ℕ) → n ≤ max_int → atoi_value (trim_prefix (rel_name (pos n)) (codes "rId")) ≡ pos n
unfolding trim_prefix rel_name itoa
rel_number n h = atoi_value-format_nat n h

-- The index in the map of names is read from the same place.
pub behind-sheet_target :
    (n : ℕ)
    → behind (sheet_target (pos n)) (codes "worksheets/sheet") ≡ some (format_nat n ++ codes ".xml")
unfolding behind sheet_target itoa
behind-sheet_target n = refl
