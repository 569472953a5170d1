-- ===== src/ListPages.antt =====
-- The list pages and their URL: frontend/src/pages/reports/ReportListPage.tsx and
-- frontend/src/pages/admin/AllReportsPage.tsx. What a page shows and asks the server for is read
-- from the query of the URL, which its handlers write.
pub mod Refinement
pub mod AllReports
pub mod FilterBar
pub mod Names
pub mod NameFilter
pub mod Toasts
pub mod Workflow
mod Tests
use expense_saas.Prelude.{ℕ, zero, suc, String, Option, none, some, List, [], ◌∷◌}
use expense_saas.Texts.{Chars, Number, nan, pos, neg, parse_int, given, or_else}
use expense_saas.Pagination.{
  Params, get, first_page, Filter, handle_filter_change, handle_page_change, handle_per_page_change,
}
use expense_saas.Hooks.{MyReportsParams}

-- `parseInt(searchParams.get('page') ?? '1', 10)`
unfoldable pub page_of : Option Chars → Number
unfolding parse_int
page_of page = parse_int (or_else page first_page)

-- `per_page`: 20 where the URL has no number or a negative one. The number -0 counts as 0.
abbrev fallback : Number → ℕ
fallback nan = 20
fallback (pos n) = n
fallback (neg zero) = 0
fallback (neg (suc n)) = 20

unfoldable pub per_page_of : Option Chars → ℕ
unfolding parse_int
per_page_of none = 20
per_page_of (some s) = fallback (parse_int s)

-- A filter of the URL: `searchParams.get(name) ?? ''`
abbrev pub text_of : String → Params → Chars
text_of name m = or_else (get name m) []

-- The parameters that ReportListPage gives to useMyReports.
unfoldable pub my_reports_params : Params → MyReportsParams
unfolding page_of per_page_of get
my_reports_params m = record {
  page = some (page_of (get "page" m));
  per_page = some (pos (per_page_of (get "per_page" m)));
  status = given (text_of "status" m);
  from = given (text_of "from" m);
  to = given (text_of "to" m);
}

-- What the user does on ReportListPage.
pub data Event : Type 0 where
  change_filter : Filter → (value : Chars) → Event
  change_page change_per_page : ℕ → Event

unfoldable pub step : Event → Params → Params
unfolding handle_filter_change handle_page_change handle_per_page_change
step (change_filter f value) m = handle_filter_change f value m
step (change_page n) m = handle_page_change n m
step (change_per_page n) m = handle_per_page_change n m

unfoldable pub run : List Event → Params → Params
unfolding step
run [] m = m
run (e ∷ es) m = run es (step e m)
