-- ===== src/Options/Laws.antt =====
-- The options of a worksheet are independent of each other, and the last setting of one counts.
use excelize.Common.{
  ℕ, ◌≡◌, refl, ap, ◌∙◌, Bool, true, false, Option, none, some, List, [], ◌∷◌, ◌==◌, if◌then◌else◌,
}
use excelize.Options.{
  PageSetUpPr, SheetPr, SheetPrOption, new_sheet_pr, set_fit_to_page, set_auto_page_breaks,
  set_sheet_pr_option, set_options_loop, set_sheet_pr_options, page_flag, get_sheet_pr_option,
  code_name_option, calculation_option, published_option, fit_to_page_option,
  auto_page_breaks_option, summary_below_option,
}

abbrev pub kind : SheetPrOption → ℕ
kind (code_name_option o) = 0
kind (calculation_option o) = 1
kind (published_option o) = 2
kind (fit_to_page_option o) = 3
kind (auto_page_breaks_option o) = 4
kind (summary_below_option o) = 5

fit-set_fit :
    (o : Bool) (p : Option PageSetUpPr) → page_flag (λ p. p.fit_to_page) (set_fit_to_page o p) ≡ o
unfolding page_flag set_fit_to_page
fit-set_fit true none = refl
fit-set_fit false none = refl
fit-set_fit o (some p) = refl

auto-set_fit :
    (o : Bool) (p : Option PageSetUpPr)
    → page_flag (λ p. p.auto_page_breaks) (set_fit_to_page o p)
      ≡ page_flag (λ p. p.auto_page_breaks) p
unfolding page_flag set_fit_to_page
auto-set_fit true none = refl
auto-set_fit false none = refl
auto-set_fit o (some p) = refl

auto-set_auto :
    (o : Bool) (p : Option PageSetUpPr)
    → page_flag (λ p. p.auto_page_breaks) (set_auto_page_breaks o p) ≡ o
unfolding page_flag set_auto_page_breaks
auto-set_auto true none = refl
auto-set_auto false none = refl
auto-set_auto o (some p) = refl

fit-set_auto :
    (o : Bool) (p : Option PageSetUpPr)
    → page_flag (λ p. p.fit_to_page) (set_auto_page_breaks o p) ≡ page_flag (λ p. p.fit_to_page) p
unfolding page_flag set_auto_page_breaks
fit-set_auto true none = refl
fit-set_auto false none = refl
fit-set_auto o (some p) = refl

get-set_one :
    (o k : SheetPrOption) (pr : SheetPr)
    → get_sheet_pr_option k (some (set_sheet_pr_option o pr))
      ≡ (if kind o == kind k then o else get_sheet_pr_option k (some pr))
unfolding get_sheet_pr_option set_sheet_pr_option
get-set_one (code_name_option o) (code_name_option x) pr = refl
get-set_one (code_name_option o) (calculation_option x) pr = refl
get-set_one (code_name_option o) (published_option x) pr = refl
get-set_one (code_name_option o) (fit_to_page_option x) pr = refl
get-set_one (code_name_option o) (auto_page_breaks_option x) pr = refl
get-set_one (code_name_option o) (summary_below_option x) pr = refl
get-set_one (calculation_option o) (code_name_option x) pr = refl
get-set_one (calculation_option o) (calculation_option x) pr = refl
get-set_one (calculation_option o) (published_option x) pr = refl
get-set_one (calculation_option o) (fit_to_page_option x) pr = refl
get-set_one (calculation_option o) (auto_page_breaks_option x) pr = refl
get-set_one (calculation_option o) (summary_below_option x) pr = refl
get-set_one (published_option o) (code_name_option x) pr = refl
get-set_one (published_option o) (calculation_option x) pr = refl
get-set_one (published_option o) (published_option x) pr = refl
get-set_one (published_option o) (fit_to_page_option x) pr = refl
get-set_one (published_option o) (auto_page_breaks_option x) pr = refl
get-set_one (published_option o) (summary_below_option x) pr = refl
get-set_one (fit_to_page_option o) (code_name_option x) pr = refl
get-set_one (fit_to_page_option o) (calculation_option x) pr = refl
get-set_one (fit_to_page_option o) (published_option x) pr = refl
get-set_one (fit_to_page_option o) (fit_to_page_option x) pr =
    ap fit_to_page_option (fit-set_fit o pr.page_set_up_pr)
get-set_one (fit_to_page_option o) (auto_page_breaks_option x) pr =
    ap auto_page_breaks_option (auto-set_fit o pr.page_set_up_pr)
get-set_one (fit_to_page_option o) (summary_below_option x) pr = refl
get-set_one (auto_page_breaks_option o) (code_name_option x) pr = refl
get-set_one (auto_page_breaks_option o) (calculation_option x) pr = refl
get-set_one (auto_page_breaks_option o) (published_option x) pr = refl
get-set_one (auto_page_breaks_option o) (fit_to_page_option x) pr =
    ap fit_to_page_option (fit-set_auto o pr.page_set_up_pr)
get-set_one (auto_page_breaks_option o) (auto_page_breaks_option x) pr =
    ap auto_page_breaks_option (auto-set_auto o pr.page_set_up_pr)
get-set_one (auto_page_breaks_option o) (summary_below_option x) pr = refl
get-set_one (summary_below_option o) (code_name_option x) pr = refl
get-set_one (summary_below_option o) (calculation_option x) pr = refl
get-set_one (summary_below_option o) (published_option x) pr = refl
get-set_one (summary_below_option o) (fit_to_page_option x) pr = refl
get-set_one (summary_below_option o) (auto_page_breaks_option x) pr = refl
get-set_one (summary_below_option o) (summary_below_option x) pr = refl

get-new :
    (k : SheetPrOption) → get_sheet_pr_option k (some new_sheet_pr) ≡ get_sheet_pr_option k none
unfolding get_sheet_pr_option
get-new (code_name_option x) = refl
get-new (calculation_option x) = refl
get-new (published_option x) = refl
get-new (fit_to_page_option x) = refl
get-new (auto_page_breaks_option x) = refl
get-new (summary_below_option x) = refl

-- The last option of a kind among those that are set, or the one that was there.
abbrev pub last_set : List SheetPrOption → SheetPrOption → SheetPrOption → SheetPrOption
last_set [] k before = before
last_set (o ∷ os) k before = last_set os k (if kind o == kind k then o else before)

get-loop :
    (os : List SheetPrOption) (k : SheetPrOption) (pr : SheetPr)
    → get_sheet_pr_option k (some (set_options_loop os pr))
      ≡ last_set os k (get_sheet_pr_option k (some pr))
unfolding set_options_loop
get-loop [] k pr = refl
get-loop (o ∷ os) k pr =
    get-loop os k (set_sheet_pr_option o pr) ∙ ap (last_set os k) (get-set_one o k pr)

-- An option that is read behind SetSheetPrOptions is the last one of its kind that was set; without
-- one it reads as before, also where the worksheet had no properties at all.
pub get-set_sheet_pr_options :
    (os : List SheetPrOption) (k : SheetPrOption) (pr : Option SheetPr)
    → get_sheet_pr_option k (set_sheet_pr_options os pr) ≡ last_set os k (get_sheet_pr_option k pr)
unfolding set_sheet_pr_options
get-set_sheet_pr_options os k none = get-loop os k new_sheet_pr ∙ ap (last_set os k) (get-new k)
get-set_sheet_pr_options os k (some pr) = get-loop os k pr
