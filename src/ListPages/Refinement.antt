-- ===== src/ListPages/Refinement.antt =====
-- ReportListPage and what it stands for: a page, a page size and three filters.
use expense_saas.Prelude.{ℕ, Option, none, some, List, [], ◌∷◌, ◌≡◌, ◌∙◌, refl, ap, if◌then◌else◌}
use expense_saas.Texts.{Chars, Number, pos, string, given, or_else, is_given}
use expense_saas.Texts.RoundTrip.{parse_int-string}
use expense_saas.Pagination.{
  Params, get, set, first_page, Filter, handle_page_change, handle_per_page_change,
}
use expense_saas.Pagination.Queries.{get-set, get-set_other, handle_filter_change-get as kept}
use expense_saas.Hooks.{MyReportsParams}
use expense_saas.ListPages.{
  page_of, per_page_of, my_reports_params, Event, change_filter, change_page, change_per_page, step,
  run,
}

-- The list that the user has chosen.
pub record Choice : Type 0 where
  pub page : Number
  pub per_page : ℕ
  pub status : Option Chars
  pub from : Option Chars
  pub to : Option Chars

-- A change of a filter or of the page size goes back to the first page.
abbrev choose : Event → Choice → Choice
choose (change_filter Filter.status value) c = record c { page = pos 1; status = given value }
choose (change_filter Filter.from value) c = record c { page = pos 1; from = given value }
choose (change_filter Filter.to value) c = record c { page = pos 1; to = given value }
choose (change_page n) c = record c { page = pos n }
choose (change_per_page n) c = record c { page = pos 1; per_page = n }

unfoldable pub choose_all : List Event → Choice → Choice
choose_all [] c = c
choose_all (e ∷ es) c = choose_all es (choose e c)

abbrev read : (page per_page s f t : Option Chars) → Choice
read page per_page s f t = record {
  page = page_of page;
  per_page = per_page_of per_page;
  status = given (or_else s []);
  from = given (or_else f []);
  to = given (or_else t []);
}

-- The choice that a URL stands for.
unfoldable pub choice_of : Params → Choice
unfolding page_of per_page_of get
choice_of m = read (get "page" m) (get "per_page" m) (get "status" m) (get "from" m) (get "to" m)

pub page_of-first : page_of (some first_page) ≡ pos 1
unfolding page_of
page_of-first = refl

pub page_of-string : (n : ℕ) → page_of (some (string n)) ≡ pos n
unfolding page_of
page_of-string n = parse_int-string n

pub per_page_of-string : (n : ℕ) → per_page_of (some (string n)) ≡ n
unfolding per_page_of
per_page_of-string n = rw (parse_int-string n)

given-filter :
    (value : Chars) → given (or_else (if is_given value then some value else none) []) ≡ given value
given-filter [] = refl
given-filter (c ∷ value) = refl

-- One change of what the user sees is one change of the choice.
choice_of-step : (e : Event) (m : Params) → choice_of (step e m) ≡ choose e (choice_of m)
unfolding choice_of step handle_page_change handle_per_page_change
choice_of-step (change_filter Filter.status value) m = rw (
  (kept Filter.status value "per_page" m refl refl).0,
  (kept Filter.status value "per_page" m refl refl).1,
  (kept Filter.status value "per_page" m refl refl).2,
  (kept Filter.status value "from" m refl refl).2,
  (kept Filter.status value "to" m refl refl).2,
  page_of-first,
  given-filter value,
)
choice_of-step (change_filter Filter.from value) m = rw (
  (kept Filter.from value "per_page" m refl refl).0,
  (kept Filter.from value "per_page" m refl refl).1,
  (kept Filter.from value "per_page" m refl refl).2,
  (kept Filter.from value "status" m refl refl).2,
  (kept Filter.from value "to" m refl refl).2,
  page_of-first,
  given-filter value,
)
choice_of-step (change_filter Filter.to value) m = rw (
  (kept Filter.to value "per_page" m refl refl).0,
  (kept Filter.to value "per_page" m refl refl).1,
  (kept Filter.to value "per_page" m refl refl).2,
  (kept Filter.to value "status" m refl refl).2,
  (kept Filter.to value "from" m refl refl).2,
  page_of-first,
  given-filter value,
)
choice_of-step (change_page n) m = rw (
  get-set "page" (string n) m,
  get-set_other "page" "per_page" (string n) m refl,
  get-set_other "page" "status" (string n) m refl,
  get-set_other "page" "from" (string n) m refl,
  get-set_other "page" "to" (string n) m refl,
  page_of-string n,
)
choice_of-step (change_per_page n) m =
    let sized = set "per_page" (string n) m in
    rw (
      get-set "page" first_page sized,
      get-set_other "page" "per_page" first_page sized refl,
      get-set_other "page" "status" first_page sized refl,
      get-set_other "page" "from" first_page sized refl,
      get-set_other "page" "to" first_page sized refl,
      get-set "per_page" (string n) m,
      get-set_other "per_page" "status" (string n) m refl,
      get-set_other "per_page" "from" (string n) m refl,
      get-set_other "per_page" "to" (string n) m refl,
      page_of-first,
      per_page_of-string n,
    )

choice_of-run : (es : List Event) (m : Params) → choice_of (run es m) ≡ choose_all es (choice_of m)
unfolding run choose_all
choice_of-run [] m = refl
choice_of-run (e ∷ es) m = choice_of-run es (step e m) ∙ ap (choose_all es) (choice_of-step e m)

-- What is asked of the server for a choice.
abbrev pub ask : Choice → MyReportsParams
ask c = record {
  page = some c.page;
  per_page = some (pos c.per_page);
  status = c.status;
  from = c.from;
  to = c.to;
}

my_reports_params-choice_of : (m : Params) → my_reports_params m ≡ ask (choice_of m)
unfolding my_reports_params choice_of
my_reports_params-choice_of m = refl

-- However the user goes through ReportListPage, the page asks the server for what the changes make
-- of the choice in the first URL: the last page, page size and filters that the user has chosen,
-- with the first page after a change of a filter or of the page size.
pub my_reports_params-run :
    (es : List Event) (m : Params)
    → my_reports_params (run es m) ≡ ask (choose_all es (choice_of m))
my_reports_params-run es m = my_reports_params-choice_of (run es m) ∙ ap ask (choice_of-run es m)
