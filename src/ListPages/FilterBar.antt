-- ===== src/ListPages/FilterBar.antt =====
-- frontend/src/pages/admin/AllReportsFilterBar.tsx on AllReportsPage.tsx of the same folder: what the
-- bar shows, and what its four fields do to the URL.
use expense_saas.Hooks.{AllReportsParams}
use expense_saas.ListPages.{per_page_of}
use expense_saas.Prelude.{
  String, Option, none, some, Bool, true, false, List, [], ◌∷◌, map, ◌≡◌, ◌↔◌, ◌∙◌, refl, ap, arith,
  if◌then◌else◌, ◌&&◌, ℕ,
}
use expense_saas.Texts.{Chars, codes, is_given, pos, given}
use expense_saas.Period.{lt_text}
use expense_saas.Period.Order.{Date, Fits, earlier, iso_date, lt_text-iso_date}
use expense_saas.Pagination.{Params, get}
use expense_saas.ListPages.AllReports.{
  AllReportsFilterValues, filters_of, guarded_page_of, handle_filters_change,
  handle_filters_change-filters_of, all_reports_params,
}

-- UserSummary
pub record Member : Type 0 where
  pub id : Chars
  pub name : String

-- `dateError`
unfoldable pub date_error : AllReportsFilterValues → Option String
unfolding lt_text
date_error f =
    if is_given f.from && (is_given f.to && lt_text f.to f.from)
    then some "開始日は終了日以前を指定してください"
    else none

-- What AppSelect and AppDatePicker get.
pub record SelectField : Type 0 where
  pub options : List (Chars × String)
  pub value : Chars
  pub disabled : Bool

pub record DateField : Type 0 where
  pub value : Chars
  pub error_message : Option String

pub record FilterBar : Type 0 where
  pub status : SelectField
  pub from : DateField
  pub to : DateField
  pub submitter_id : SelectField
  pub shows_loading : Bool

-- STATUS_OPTIONS
abbrev pub status_options : List (Chars × String)
status_options =
    ([], "全て")
    ∷ (codes "draft", "下書き")
    ∷ (codes "submitted", "提出済み")
    ∷ (codes "approved", "承認済み")
    ∷ (codes "rejected", "却下")
    ∷ (codes "paid", "支払済み")
    ∷ []

-- `memberOptions`
abbrev pub member_options : List Member → List (Chars × String)
member_options ms = ([], "全て") ∷ map (λ m. (m.id, m.name)) ms

unfoldable pub all_reports_filter_bar :
    AllReportsFilterValues → (members : List Member) → (members_loading : Bool) → FilterBar
unfolding date_error
all_reports_filter_bar f ms l = record {
  status = record { options = status_options; value = f.status; disabled = false };
  from = record { value = f.from; error_message = none };
  to = record { value = f.to; error_message = date_error f };
  submitter_id = record { options = member_options ms; value = f.submitter_id; disabled = l };
  shows_loading = l;
}

-- The `onChange` of the four fields.
pub data FieldChange : Type 0 where
  change_status : (value : Chars) → FieldChange
  change_from : (value : Chars) → FieldChange
  change_to : (value : Chars) → FieldChange
  change_submitter_id : (value : Chars) → FieldChange

-- What a field hands to onFilterChange.
unfoldable pub changed : FieldChange → AllReportsFilterValues → AllReportsFilterValues
changed (change_status v) f = record f { status = v }
changed (change_from v) f = record f { from = v }
changed (change_to v) f = record f { to = v }
changed (change_submitter_id v) f = record f { submitter_id = v }

-- One change on the page: the bar has the filters of the URL, and the page writes them back.
unfoldable pub step : FieldChange → Params → Params
unfolding changed filters_of handle_filters_change
step c m = handle_filters_change (changed c (filters_of m)) m

unfoldable pub run : List FieldChange → Params → Params
unfolding step
run [] m = m
run (c ∷ cs) m = run cs (step c m)

-- The choice of the user, without a URL.
unfoldable pub changed_all : List FieldChange → AllReportsFilterValues → AllReportsFilterValues
unfolding changed
changed_all [] f = f
changed_all (c ∷ cs) f = changed_all cs (changed c f)

step-filters_of :
    (c : FieldChange) (m : Params)
    → (filters_of (step c m) ≡ changed c (filters_of m))
      × (guarded_page_of (get "page" (step c m)) ≡ 1)
      × (get "per_page" (step c m) ≡ get "per_page" m)
unfolding step
step-filters_of c m =
    handle_filters_change-filters_of (changed c (filters_of m)) m "per_page" refl refl refl refl
      refl

-- However the bar is used, the filters in the URL are what the changes make of the first ones, and
-- the page size stays.
pub run-filters_of :
    (cs : List FieldChange) (m : Params)
    → (filters_of (run cs m) ≡ changed_all cs (filters_of m))
      × (get "per_page" (run cs m) ≡ get "per_page" m)
unfolding run changed_all
run-filters_of [] m = (refl, refl)
run-filters_of (c ∷ cs) m =
    let (f, p) = run-filters_of cs (step c m) in
    let (f1, p1, s1) = step-filters_of c m in (f ∙ ap (λ g. changed_all cs g) f1, p ∙ s1)

-- The page is the first one from the first change on.
run-guarded_page_of :
    (cs : List FieldChange) (m : Params)
    → guarded_page_of (get "page" m) ≡ 1
    → guarded_page_of (get "page" (run cs m)) ≡ 1
unfolding run
run-guarded_page_of [] m h = h
run-guarded_page_of (c ∷ cs) m h =
    let (f, p, s) = step-filters_of c m in run-guarded_page_of cs (step c m) p

first_page_run :
    (c : FieldChange) (cs : List FieldChange) (m : Params)
    → guarded_page_of (get "page" (run (c ∷ cs) m)) ≡ 1
unfolding run
first_page_run c cs m = let (f, p, s) = step-filters_of c m in run-guarded_page_of cs (step c m) p

-- What the page asks for, from the numbers and the filters in the URL.
abbrev pub request : (page per_page : ℕ) → AllReportsFilterValues → AllReportsParams
request page per_page f = record {
  page = some (pos page);
  per_page = some (pos per_page);
  status = given f.status;
  from = given f.from;
  to = given f.to;
  submitter_id = given f.submitter_id;
}

all_reports_params-request :
    (m : Params)
    → all_reports_params m
      ≡ request (guarded_page_of (get "page" m)) (per_page_of (get "per_page" m)) (filters_of m)
unfolding all_reports_params
all_reports_params-request m = refl

-- However the bar is used on AllReportsPage, the page then asks the server for the first page of the
-- filters that the changes make of those in the first URL, with the page size of that URL: also
-- while the bar shows an error at the period.
pub all_reports_params-run :
    (c : FieldChange) (cs : List FieldChange) (m : Params)
    → all_reports_params (run (c ∷ cs) m)
      ≡ request 1 (per_page_of (get "per_page" m)) (changed_all (c ∷ cs) (filters_of m))
all_reports_params-run c cs m =
    let (f, size) = run-filters_of (c ∷ cs) m in
    all_reports_params-request (run (c ∷ cs) m) ∙ rw (f, size, first_page_run c cs m) refl

date_error_iff :
    (f : AllReportsFilterValues)
    → is_given f.from ≡ true
    → is_given f.to ≡ true
    → (date_error f ≡ none) ↔ (lt_text f.to f.from ≡ false)
unfolding date_error
date_error_iff f a b = ground (arith, a, b)

date-is_given : (d : Date) → is_given (iso_date d) ≡ true
unfolding iso_date
date-is_given d = refl

-- With two dates in the fields of the period, the bar shows no error exactly if the period does not
-- end before it starts in the calendar.
pub all_reports_filter_bar-iso_date :
    (f : AllReportsFilterValues) (first last : Date) (ms : List Member) (l : Bool)
    → Fits first
    → Fits last
    → f.from ≡ iso_date first
    → f.to ≡ iso_date last
    → ((all_reports_filter_bar f ms l).to.error_message ≡ none) ↔ (earlier last first ≡ false)
unfolding all_reports_filter_bar
all_reports_filter_bar-iso_date f first last ms l fits fits2 a b =
    let given1 : is_given f.from ≡ true = ap is_given a ∙ date-is_given first in
    let given2 : is_given f.to ≡ true = ap is_given b ∙ date-is_given last in
    let texts : lt_text f.to f.from ≡ earlier last first =
      rw (a, b, lt_text-iso_date last first fits2 fits) refl in
    rw (← texts) (date_error_iff f given1 given2)
