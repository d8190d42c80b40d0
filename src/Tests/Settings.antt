-- ===== src/Tests/Settings.antt =====
-- Views, passwords, relationships and links of a small workbook.
use excelize.Common.{
  ℕ, ◌≡◌, refl, true, false, ◌&&◌, some, List, [], ◌∷◌, map, arith, length, get_elem?, codes,
  str_eq, ok,
}
use excelize.Common.Int.{◌+ℤ◌, ◌-ℤ◌, pos, negsuc}
use excelize.Links.{
  first_link, get_cell_hyper_link, hyper_link_relationship, set_cell_hyper_link, location,
}
use excelize.Links.Laws.{get-set_cell_hyper_link}
use excelize.Merge.{merge_cells_parser}
use excelize.Parts.{
  work_sheet_rels_reader, add_sheet_relationships, get_sheet_relationships_target_by_id,
}
use excelize.Parts.Laws.{sheet_rels_of, IsNumbered, add_sheet_relationships-IsNumbered}
use excelize.Password.{gen_sheet_passwd}
use excelize.Password.Bound.{is_hex_digit, gen_sheet_passwd-four}
use excelize.Ref.Cell.{split_cell_name}
use excelize.Ref.Decimal.{itoa, atoi}
use excelize.Tests.Workbook.{no_parser, sheet1, one_sheet}
use excelize.Views.{
  SheetViewOption, get_sheet_view_option, view_index, set_sheet_view_options,
  get_sheet_view_options, show_grid_lines_option, zoom_scale_option,
}
use excelize.Views.Laws.{last_taken, get-set_sheet_view_options}
use excelize.Workbook.Create.{new_part, rel_name}
use excelize.Workbook.Data.{SheetView, File}
use excelize.Workbook.Names.{sheet_path}
use excelize.Workbook.Reader.{Opened, work_sheet_reader}

opened1 : Opened
opened1 = record { file = one_sheet; path = sheet_path (pos 1); part = new_part }

sheet1-read : work_sheet_reader no_parser sheet1 one_sheet ≡ ok opened1
unfolding work_sheet_reader str_eq sheet_path itoa opened1
sheet1-read = refl

abbrev hidden_grid : List SheetViewOption
hidden_grid = show_grid_lines_option false ∷ zoom_scale_option 0x4059000000000000 ∷ []

get-set_sheet_view_options_example :
    (view : SheetView) × (f' : File) × (get_elem? opened1.part.views 0 ≡ some view)
    × (set_sheet_view_options no_parser sheet1 (negsuc 0) hidden_grid one_sheet ≡ ok f')
    × (get_sheet_view_options no_parser sheet1 (negsuc 0) (zoom_scale_option 0 ∷ []) f'
        ≡ ok (
          f',
          map
              (λ k. last_taken hidden_grid k (get_sheet_view_option k view))
              (zoom_scale_option 0 ∷ []),
        ))
unfolding opened1 view_index ◌+ℤ◌ ◌-ℤ◌
get-set_sheet_view_options_example =
    get-set_sheet_view_options no_parser sheet1 (negsuc 0) hidden_grid (zoom_scale_option 0 ∷ [])
      one_sheet opened1 0 sheet1-read refl (omega arith)

gen_sheet_passwd-four_example :
    (a : ℕ) × (b : ℕ) × (c : ℕ) × (d : ℕ) × (gen_sheet_passwd (codes "test") ≡ a ∷ b ∷ c ∷ d ∷ [])
    × ((is_hex_digit a && is_hex_digit b && is_hex_digit c && is_hex_digit d) ≡ true)
gen_sheet_passwd-four_example =
    gen_sheet_passwd-four (codes "test")
      (omega arith, (omega arith, (omega arith, (omega arith, tt)))) (omega arith)

-- The hash of `test`.
passwd_test : gen_sheet_passwd (codes "test") ≡ codes "CBEB"
unfolding gen_sheet_passwd
passwd_test = refl

-- A longer password has a longer hash.
passwd_long : length (gen_sheet_passwd (codes "abcdefghijklmnopqrstuvwxyz")) ≡ 5
unfolding gen_sheet_passwd
passwd_long = refl

add_sheet_relationships-IsNumbered_example :
    IsNumbered 1 (
      sheet_rels_of no_parser sheet1
        (add_sheet_relationships no_parser sheet1 hyper_link_relationship
          (codes "a")
          []
          one_sheet).0)
    × ((get_sheet_relationships_target_by_id no_parser sheet1
          (rel_name
            (add_sheet_relationships no_parser sheet1 hyper_link_relationship
              (codes "a")
              []
              one_sheet).1)
          (add_sheet_relationships no_parser sheet1 hyper_link_relationship
            (codes "a")
            []
            one_sheet).0).1
        ≡ codes "a")
unfolding work_sheet_rels_reader
add_sheet_relationships-IsNumbered_example =
    add_sheet_relationships-IsNumbered no_parser sheet1 hyper_link_relationship (codes "a") []
      one_sheet tt (omega arith)

get-set_cell_hyper_link_example :
    (f' : File) × (set_cell_hyper_link no_parser sheet1 (codes "B2") (codes "A1") location one_sheet
      ≡ ok f')
    × (get_cell_hyper_link no_parser sheet1 (codes "B2") f' ≡ ok (f', true, codes "A1"))
unfolding opened1 split_cell_name merge_cells_parser atoi first_link
get-set_cell_hyper_link_example =
    get-set_cell_hyper_link no_parser sheet1 (codes "B2") (codes "A1") one_sheet opened1
      (codes "B", pos 2) (codes "B2") refl sheet1-read refl (omega arith) tt
