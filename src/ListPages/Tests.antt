-- ===== src/ListPages/Tests.antt =====
-- The third page of a list, and a name that is typed.
use expense_saas.ListPages.FilterBar
use expense_saas.ListPages.FilterBar.{
  FieldChange, change_from, change_to, date_error, request, changed_all, all_reports_params-run,
}
use expense_saas.ListPages.Toasts.{Failure}
use expense_saas.Prelude.{none, some, List, [], ◌∷◌, ◌≡◌, refl}
use expense_saas.Texts.{nan, pos, codes, string}
use expense_saas.Pagination.{Params, status, get}
use expense_saas.ListPages.{
  page_of, my_reports_params, Event, change_filter, change_page, run, per_page_of,
}
use expense_saas.ListPages.Refinement.{ask, choose_all, choice_of, my_reports_params-run}
use expense_saas.ListPages.AllReports.{AllReportsFilterValues, filters_of, all_reports_params}
use expense_saas.ListPages.Names
use expense_saas.ListPages.Names.{open_page, name_params, change_name, timer_ends}
use expense_saas.ListPages.NameFilter.{
  IsReflected, run-open_page-IsReflected, open_page-name_params,
}

abbrev third : Params
third = ("page", codes "3") ∷ ("per_page", codes "50") ∷ []

-- ReportListPage takes the page of the URL as it is.
not_a_page : page_of (some (codes "x")) ≡ nan
unfolding page_of
not_a_page = refl

abbrev events : List Event
events = change_page 4 ∷ change_filter status (codes "paid") ∷ change_page 2 ∷ []

chosen : my_reports_params (run events third) ≡ record {
  page = some (pos 2);
  per_page = some (pos 50);
  status = some (codes "paid");
  from = none;
  to = none;
}
unfolding my_reports_params run string
chosen = refl

my_reports_params-run_example :
    my_reports_params (run events third) ≡ ask (choose_all events (choice_of third))
my_reports_params-run_example = my_reports_params-run events third

abbrev filters : AllReportsFilterValues
filters = record { status = codes "paid"; from = []; to = codes "2026-03-31"; submitter_id = [] }

abbrev typed : List Names.Event
typed = change_name (codes "a") ∷ change_name (codes "ab") ∷ timer_ends ∷ []

run-open_page-IsReflected_example : IsReflected (Names.run typed (open_page third))
run-open_page-IsReflected_example = run-open_page-IsReflected typed third

open_page-name_params_example :
    name_params (open_page third).search_params ≡ record (name_params third) { page = some (pos 1) }
open_page-name_params_example = open_page-name_params third

-- Two failures in a row; the user closes the toast of the first.
abbrev broken : Failure
broken = record { status = some 500; message = some "down" }

-- The period ends before it starts: the bar says so, and the page asks for it all the same.
abbrev reversed : List FieldChange
reversed = change_from (codes "2026-04-01") ∷ change_to (codes "2026-03-31") ∷ []

reversed_error :
    (date_error (filters_of (FilterBar.run reversed third)) ≡ some "開始日は終了日以前を指定してください")
    × (all_reports_params (FilterBar.run reversed third)
        ≡ request 1 50 record {
          status = [];
          from = codes "2026-04-01";
          to = codes "2026-03-31";
          submitter_id = [];
        })
unfolding date_error filters_of FilterBar.run all_reports_params
reversed_error = (refl, refl)

all_reports_params-run_example :
    all_reports_params (FilterBar.run reversed third)
    ≡ request 1 (per_page_of (get "per_page" third)) (changed_all reversed (filters_of third))
all_reports_params-run_example =
    all_reports_params-run (change_from (codes "2026-04-01")) (change_to (codes "2026-03-31") ∷ [])
      third
