-- ===== src/Workbook/Names.antt =====
-- trimSheetName (sheet.go), and the names of a sheet's files. A sheet name is the list of its runes;
-- names are compared and looked up only.
use excelize.Common.{
  ℕ, suc, ◌-◌, Bool, true, false, ◌&&◌, ◌||◌, [], ◌∷◌, ◌++◌, ltb, leb, ◌==◌, if◌then◌else◌, length,
  take, drop, Bytes, codes, str_eq,
}
use excelize.Common.Int.{ℤ}
use excelize.Ref.Decimal.{itoa, atoi_value}

unfoldable pub forbidden : ℕ → Bool
forbidden v =
    (v == 58) || (v == 92) || (v == 47) || (v == 63) || (v == 42) || (v == 91) || (v == 93)

-- `strings.ContainsAny(name, ":\\/?*[]")`.
unfoldable pub contains_any : Bytes → Bool
unfolding forbidden
contains_any [] = false
contains_any (v ∷ vs) = forbidden v || contains_any vs

abbrev pub max_name : ℕ
max_name = 31

-- The loop, with the number of runes that are kept.
unfoldable pub trim_loop : Bytes → ℕ → Bytes
unfolding forbidden
trim_loop [] n = []
trim_loop (v ∷ vs) n = elim (forbidden v) [
  | true ↦ trim_loop vs n
  | false ↦ elim (suc n == max_name) [ true ↦ v ∷ [] | false ↦ v ∷ trim_loop vs (suc n) ]
]

unfoldable pub trim_sheet_name : Bytes → Bytes
unfolding contains_any trim_loop
trim_sheet_name name =
    if contains_any name || ltb max_name (length name) then trim_loop name 0 else name

-- `strings.TrimPrefix` and `strings.TrimSuffix`.
unfoldable pub has_prefix : Bytes → Bytes → Bool
has_prefix s [] = true
has_prefix [] (c ∷ p) = false
has_prefix (d ∷ s) (c ∷ p) = (d == c) && has_prefix s p

unfoldable pub trim_prefix : Bytes → Bytes → Bytes
unfolding has_prefix
trim_prefix s p = if has_prefix s p then drop (length p) s else s

unfoldable pub trim_suffix : Bytes → Bytes → Bytes
unfolding str_eq
trim_suffix s p =
    if leb (length p) (length s) && str_eq (drop (length s - length p) s) p
    then take (length s - length p) s
    else s

-- "xl/worksheets/sheet" + strconv.Itoa(index) + ".xml".
unfoldable pub sheet_path : ℤ → Bytes
sheet_path index = codes "xl/worksheets/sheet" ++ (itoa index ++ codes ".xml")

unfoldable pub sheet_target : ℤ → Bytes
sheet_target index = codes "worksheets/sheet" ++ (itoa index ++ codes ".xml")

unfoldable pub rels_path : ℤ → Bytes
rels_path index = codes "xl/worksheets/_rels/sheet" ++ (itoa index ++ codes ".xml.rels")

-- The number in the target of a relationship; 0 where there is none.
unfoldable pub target_index : Bytes → ℤ
unfolding trim_prefix trim_suffix atoi_value
target_index target =
    atoi_value (trim_suffix (trim_prefix target (codes "worksheets/sheet")) (codes ".xml"))
