-- ===== src/Tests/Options.antt =====
-- Options at concrete inputs.
use excelize.Common.{◌≡◌, true, false, none, List, [], ◌∷◌}
use excelize.Options.{
  SheetPrOption, set_sheet_pr_options, get_sheet_pr_option, published_option, fit_to_page_option,
}
use excelize.Options.Laws.{last_set, get-set_sheet_pr_options}

abbrev two_options : List SheetPrOption
two_options = fit_to_page_option true ∷ published_option false ∷ []

get-set_sheet_pr_options_example :
    get_sheet_pr_option (published_option true) (set_sheet_pr_options two_options none)
    ≡ last_set two_options
        (published_option true)
        (get_sheet_pr_option (published_option true) none)
get-set_sheet_pr_options_example = get-set_sheet_pr_options two_options (published_option true) none
