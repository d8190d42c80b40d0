-- ===== src/Options.antt =====
-- The options of a worksheet (sheetpr.go), with boolPtr and defaultTrue (lib.go).
pub mod Laws
use excelize.Common.{Bool, true, false, Option, none, some, List, [], ◌∷◌, if◌then◌else◌, Bytes}

pub record PageSetUpPr : Type 0 where
  pub auto_page_breaks : Bool
  pub fit_to_page : Bool

-- The fields that the options read or write. OutlinePr is a pointer to a struct of one bool,
-- SummaryBelow.
pub record SheetPr : Type 0 where
  pub code_name : Bytes
  pub enable_format_conditions_calculation : Option Bool
  pub filter_mode : Bool
  pub published : Option Bool
  pub summary_below : Option Bool
  pub page_set_up_pr : Option PageSetUpPr

-- The implementations of SheetPrOption.
pub data SheetPrOption : Type 0 where
  code_name_option : Bytes → SheetPrOption
  calculation_option : Bool → SheetPrOption
  published_option : Bool → SheetPrOption
  fit_to_page_option : Bool → SheetPrOption
  auto_page_breaks_option : Bool → SheetPrOption
  summary_below_option : Bool → SheetPrOption

abbrev pub new_sheet_pr : SheetPr
new_sheet_pr = record {
  code_name = [];
  enable_format_conditions_calculation = none;
  filter_mode = false;
  published = none;
  summary_below = none;
  page_set_up_pr = none;
}

-- A false option leaves a missing PageSetUpPr missing.
unfoldable pub set_fit_to_page : Bool → Option PageSetUpPr → Option PageSetUpPr
set_fit_to_page o (some p) = some (record p { fit_to_page = o })
set_fit_to_page o none =
    if o then some (record { auto_page_breaks = false; fit_to_page = true }) else none

unfoldable pub set_auto_page_breaks : Bool → Option PageSetUpPr → Option PageSetUpPr
set_auto_page_breaks o (some p) = some (record p { auto_page_breaks = o })
set_auto_page_breaks o none =
    if o then some (record { auto_page_breaks = true; fit_to_page = false }) else none

unfoldable pub set_sheet_pr_option : SheetPrOption → SheetPr → SheetPr
unfolding set_fit_to_page set_auto_page_breaks
set_sheet_pr_option (code_name_option o) pr = record pr { code_name = o }
set_sheet_pr_option (calculation_option o) pr = record pr {
  enable_format_conditions_calculation = some o;
}
set_sheet_pr_option (published_option o) pr = record pr { published = some o }
set_sheet_pr_option (fit_to_page_option o) pr = record pr {
  page_set_up_pr = set_fit_to_page o pr.page_set_up_pr;
}
set_sheet_pr_option (auto_page_breaks_option o) pr = record pr {
  page_set_up_pr = set_auto_page_breaks o pr.page_set_up_pr;
}
set_sheet_pr_option (summary_below_option o) pr = record pr { summary_below = some o }

unfoldable pub set_options_loop : List SheetPrOption → SheetPr → SheetPr
unfolding set_sheet_pr_option
set_options_loop [] pr = pr
set_options_loop (o ∷ os) pr = set_options_loop os (set_sheet_pr_option o pr)

-- SetSheetPrOptions, on the pointer of the worksheet to its properties.
unfoldable pub set_sheet_pr_options : List SheetPrOption → Option SheetPr → Option SheetPr
unfolding set_options_loop
set_sheet_pr_options os none = some (set_options_loop os new_sheet_pr)
set_sheet_pr_options os (some pr) = some (set_options_loop os pr)

unfoldable pub default_true : Option Bool → Bool
default_true none = true
default_true (some b) = b

unfoldable pub page_flag : (PageSetUpPr → Bool) → Option PageSetUpPr → Bool
page_flag field none = false
page_flag field (some p) = field p

-- Each option is overwritten with the value that the properties have for it.
unfoldable pub get_sheet_pr_option : SheetPrOption → Option SheetPr → SheetPrOption
unfolding default_true page_flag
get_sheet_pr_option (code_name_option o) none = code_name_option []
get_sheet_pr_option (code_name_option o) (some pr) = code_name_option pr.code_name
get_sheet_pr_option (calculation_option o) none = calculation_option true
get_sheet_pr_option (calculation_option o) (some pr) =
    calculation_option (default_true pr.enable_format_conditions_calculation)
get_sheet_pr_option (published_option o) none = published_option true
get_sheet_pr_option (published_option o) (some pr) = published_option (default_true pr.published)
get_sheet_pr_option (fit_to_page_option o) none = fit_to_page_option false
get_sheet_pr_option (fit_to_page_option o) (some pr) =
    fit_to_page_option (page_flag (λ p. p.fit_to_page) pr.page_set_up_pr)
get_sheet_pr_option (auto_page_breaks_option o) none = auto_page_breaks_option false
get_sheet_pr_option (auto_page_breaks_option o) (some pr) =
    auto_page_breaks_option (page_flag (λ p. p.auto_page_breaks) pr.page_set_up_pr)
get_sheet_pr_option (summary_below_option o) none = summary_below_option true
get_sheet_pr_option (summary_below_option o) (some pr) =
    summary_below_option (default_true pr.summary_below)
