-- ===== src/Settings/Laws.antt =====
-- What the settings of a worksheet read as behind the calls that write them.
use excelize.Common.{
  ◌<◌, ◌≡◌, refl, ap, ◌∙◌, Bool, true, false, Option, none, some, List, [], ◌∷◌, map, arith,
  if◌then◌else◌, length, Bytes, codes, str_eq, ok,
}
use excelize.Common.Int.{eqb_ℤ, pos}
use excelize.Settings.{
  check_fields, checked_fields, set_header_footer, FormatSheetProtection, protection_of,
  settings_or, protect_sheet, unprotect_sheet, PageLayoutOption, set_page_layout_option,
  page_options_loop, get_page_layout_option, page_set_up_or, set_page_layout, get_page_layout,
  orientation_option, paper_size_option,
}
use excelize.Workbook.Data.{PageSetUp, HeaderFooter, Parser, File}
use excelize.Workbook.Reader.{Opened, work_sheet_reader, store_part}
use excelize.Workbook.Stored.{reader-store_part}

-- An empty orientation reads as portrait, and the paper size 0 as 1.
abbrev pub shown : PageLayoutOption → PageLayoutOption
shown (orientation_option o) = orientation_option (if str_eq o [] then codes "portrait" else o)
shown (paper_size_option n) = paper_size_option (if eqb_ℤ n (pos 0) then pos 1 else n)

abbrev pub same_kind : PageLayoutOption → PageLayoutOption → Bool
same_kind (orientation_option o) (orientation_option x) = true
same_kind (paper_size_option o) (paper_size_option x) = true
same_kind o x = false

-- The last option of the kind of k among those that are set, or the one that was there.
abbrev pub last_shown :
    List PageLayoutOption → PageLayoutOption → PageLayoutOption → PageLayoutOption
last_shown [] k before = before
last_shown (o ∷ os) k before = last_shown os k (if same_kind o k then shown o else before)

get-set_one :
    (o k : PageLayoutOption) (ps : PageSetUp)
    → get_page_layout_option k (some (set_page_layout_option o ps))
      ≡ (if same_kind o k then shown o else get_page_layout_option k (some ps))
unfolding get_page_layout_option set_page_layout_option
get-set_one (orientation_option o) (orientation_option x) ps = refl
get-set_one (orientation_option o) (paper_size_option x) ps = refl
get-set_one (paper_size_option o) (orientation_option x) ps = refl
get-set_one (paper_size_option o) (paper_size_option x) ps = refl

get-new :
    (k : PageLayoutOption) (q : Option PageSetUp)
    → get_page_layout_option k (some (page_set_up_or q)) ≡ get_page_layout_option k q
unfolding get_page_layout_option str_eq
get-new (orientation_option x) none = refl
get-new (paper_size_option x) none = refl
get-new k (some ps) = refl

get-loop :
    (os : List PageLayoutOption) (k : PageLayoutOption) (ps : PageSetUp)
    → get_page_layout_option k (some (page_options_loop os ps))
      ≡ last_shown os k (get_page_layout_option k (some ps))
unfolding page_options_loop
get-loop [] k ps = refl
get-loop (o ∷ os) k ps =
    get-loop os k (set_page_layout_option o ps) ∙ ap (last_shown os k) (get-set_one o k ps)

map_same :
    (g h : PageLayoutOption → PageLayoutOption) (ks : List PageLayoutOption)
    → ((k : PageLayoutOption) → g k ≡ h k)
    → map g ks ≡ map h ks
map_same g h [] e = refl
map_same g h (k ∷ ks) e = rw (e k, map_same g h ks e) refl

-- On a worksheet that can be read, SetPageLayout succeeds, and GetPageLayout then reads for each
-- option the last one of its kind that was set, or what was there; an orientation that is empty or
-- missing reads as portrait, and a paper size that is 0 or missing as 1.
get-set_page_layout :
    (p : Parser) (sheet : Bytes) (os ks : List PageLayoutOption) (f : File) (o : Opened)
    → work_sheet_reader p sheet f ≡ ok o
    → (f' : File) × (set_page_layout p sheet os f ≡ ok f')
      × (get_page_layout p sheet ks f'
          ≡ ok (f', map (λ k. last_shown os k (get_page_layout_option k o.part.page_set_up)) ks))
unfolding set_page_layout get_page_layout
get-set_page_layout p sheet os ks f o h =
    let ps = page_set_up_or o.part.page_set_up in
    let x = record o.part { page_set_up = some (page_options_loop os ps) } in
    let same =
      map_same (λ k. get_page_layout_option k (some (page_options_loop os ps)))
        (λ k. last_shown os k (get_page_layout_option k o.part.page_set_up)) ks
        (λ k. get-loop os k ps ∙ ap (last_shown os k) (get-new k o.part.page_set_up)) in
    (store_part o.path x o.file, rw h refl, rw (reader-store_part p sheet x f o h, same) refl)

-- A header or a footer of the first five kinds is refused from 255 bytes on.
check_fields-short :
    (s : HeaderFooter)
    → length s.odd_header < 255
    → length s.odd_footer < 255
    → length s.even_header < 255
    → length s.even_footer < 255
    → length s.first_footer < 255
    → check_fields (checked_fields s) ≡ ok tt
unfolding check_fields
check_fields-short s a b c d e = ground arith

-- SetHeaderFooter accepts a header of the first page of any length, where the other five texts are
-- shorter than 255 bytes: the loop over the fields ends before that one.
set_header_footer_first_header :
    (p : Parser) (sheet first_header : Bytes) (s : HeaderFooter) (f : File) (o : Opened)
    → work_sheet_reader p sheet f ≡ ok o
    → length s.odd_header < 255
    → length s.odd_footer < 255
    → length s.even_header < 255
    → length s.even_footer < 255
    → length s.first_footer < 255
    → set_header_footer p sheet (some (record s { first_header = first_header })) f
      ≡ ok (
          store_part o.path
            (record o.part { header_footer = some (record s { first_header = first_header }) })
            o.file)
unfolding set_header_footer
set_header_footer_first_header p sheet first_header s f o h a b c d e =
    rw (h, check_fields-short (record s { first_header = first_header }) a b c d e) refl

-- Protecting a sheet and lifting the protection leaves it as it is read, without a protection.
unprotect-protect_sheet :
    (p : Parser) (sheet : Bytes) (s : Option FormatSheetProtection) (f : File) (o : Opened)
    → work_sheet_reader p sheet f ≡ ok o
    → (f' : File) × (f'' : File) × (protect_sheet p sheet s f ≡ ok f')
      × (unprotect_sheet p sheet f' ≡ ok f'')
      × (work_sheet_reader p sheet f''
          ≡ ok (record {
            file = f'';
            path = o.path;
            part = record o.part { sheet_protection = none };
          }))
unfolding protect_sheet unprotect_sheet
unprotect-protect_sheet p sheet s f o h =
    let x = record o.part { sheet_protection = some (protection_of (settings_or s)) } in
    let again = reader-store_part p sheet x f o h in
    let y = record o.part { sheet_protection = none } in
    let o' : Opened = record { file = store_part o.path x o.file; path = o.path; part = x } in
    (
      store_part o.path x o.file,
      store_part o.path y (store_part o.path x o.file),
      rw h refl,
      rw again refl,
      reader-store_part p sheet y (store_part o.path x o.file) o' again,
    )
