-- ===== src/Sheet/Data.antt =====
-- The structs of xmlWorksheet.go that the modelled functions read or write. A float64 is its
-- pattern of 64 bits; a pointer that may be nil is an Option.
use excelize.Common.{
  ℕ, ◌≡◌, ap, Bool, false, Option, none, some, List, [], get_elem?, set, Bytes, Result, ok, fault,
}
use excelize.Common.Int.{ℤ, pos_part, pos, negsuc}

-- The zero value is the attribute that is left out.
pub record XmlAttr : Type 0 where
  pub space : Bytes
  pub local : Bytes
  pub value : Bytes

pub record Formula : Type 0 where
  pub content : Bytes
  pub t : Bytes
  pub ref : Bytes
  pub si : Bytes

pub record Cell : Type 0 where
  pub r : Bytes
  pub s : ℤ
  pub t : Bytes
  pub f : Option Formula
  pub v : Bytes
  pub inline : Option Bytes
  pub xml_space : XmlAttr

pub record Row : Type 0 where
  pub collapsed : Bool
  pub custom_format : Bool
  pub custom_height : Bool
  pub hidden : Bool
  pub ht : ℕ
  pub outline_level : ℕ
  pub ph : Bool
  pub r : ℤ
  pub s : ℤ
  pub spans : Bytes
  pub thick_bot : Bool
  pub thick_top : Bool
  pub c : List Cell

pub record Col : Type 0 where
  pub best_fit : Bool
  pub collapsed : Bool
  pub custom_width : Bool
  pub hidden : Bool
  pub max_col : ℤ
  pub min_col : ℤ
  pub outline_level : ℕ
  pub phonetic : Bool
  pub style : ℤ
  pub width : ℕ

pub record MergeCells : Type 0 where
  pub count : ℤ
  pub cells : List Bytes

pub record Hyperlink : Type 0 where
  pub ref : Bytes
  pub location : Bytes
  pub display : Bytes
  pub rid : Bytes

pub record AutoFilter : Type 0 where
  pub ref : Bytes

pub record Worksheet : Type 0 where
  pub cols : Option (List Col)
  pub rows : List Row
  pub auto_filter : Option AutoFilter
  pub merge_cells : Option MergeCells
  pub hyperlinks : Option (List Hyperlink)

abbrev pub no_attr : XmlAttr
no_attr = record { space = []; local = []; value = [] }

-- `xlsxC{R: name}`.
abbrev pub blank_cell : Bytes → Cell
blank_cell name = record {
  r = name;
  s = pos 0;
  t = [];
  f = none;
  v = [];
  inline = none;
  xml_space = no_attr;
}

-- `xlsxRow{R: number}`.
abbrev pub blank_row : ℤ → Row
blank_row number = record {
  collapsed = false;
  custom_format = false;
  custom_height = false;
  hidden = false;
  ht = 0;
  outline_level = 0;
  ph = false;
  r = number;
  s = pos 0;
  spans = [];
  thick_bot = false;
  thick_top = false;
  c = [];
}

-- `l[i]` for an int `i`; none stands for the panic.
abbrev pub index? {ℓ} : {A : Type ℓ} → List A → ℤ → Option A
index? l (pos i) = get_elem? l i
index? l (negsuc i) = none

-- A write through a pointer to `l[i]`.
abbrev pub modify_at {ℓ} : {A : Type ℓ} → ℤ → (A → A) → List A → Result (List A)
modify_at i f l = elim (index? l i) [ none ↦ fault | some a ↦ ok (set l (pos_part i) (f a)) ]

pub modify_at-some {ℓ} :
    {A : Type ℓ} (l : List A) (i : ℕ) (a : A) (f : A → A)
    → get_elem? l i ≡ some a
    → modify_at (pos i) f l ≡ ok (set l i (f a))
modify_at-some l i a f e = ap (λ o. elim o [ none ↦ fault | some b ↦ ok (set l i (f b)) ]) e
