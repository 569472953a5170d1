-- ===== src/ListPages/Names.antt =====
-- The list pages with a filter on the applicant's name, which goes to the URL 300 ms after the last
-- change of the input: frontend/src/pages/workflow/ApprovalListPage.tsx, and PaymentListPage.tsx,
-- which differs in the role, the hook and the texts. A step back in the history of the browser is
-- left out.
use expense_saas.Prelude.{ℕ, Option, none, some, List, [], ◌∷◌, if◌then◌else◌}
use expense_saas.Texts.{Chars, pos, given, same}
use expense_saas.Pagination.{
  Params, get, set, first_page, handle_page_change, handle_per_page_change,
}
use expense_saas.Hooks.{ReportListParams}
use expense_saas.ListPages.{page_of, per_page_of, text_of}
use expense_saas.ListPages.AllReports.{put}

-- The query of the URL, `applicantNameInput`, `debouncedApplicantName`, and the value that the
-- timer will take over, where one is set.
pub record NamePage : Type 0 where
  pub search_params : Params
  pub applicant_name_input : Chars
  pub debounced_applicant_name : Chars
  pub timer : Option Chars

-- The effect on a debounced value that is new.
unfoldable pub reflect : Chars → Params → Params
unfolding put
reflect name m = put "applicant_name" name (set "page" first_page m)

-- The page is opened at a URL; both effects run.
unfoldable pub open_page : Params → NamePage
unfolding reflect get
open_page m =
    let name = text_of "applicant_name" m in
    record {
      search_params = reflect name m;
      applicant_name_input = name;
      debounced_applicant_name = name;
      timer = some name;
    }

-- handleApplicantNameChange: a new input sets the timer anew.
unfoldable pub handle_applicant_name_change : Chars → NamePage → NamePage
unfolding same
handle_applicant_name_change value p =
    if same value p.applicant_name_input
    then p
    else record p { applicant_name_input = value; timer = some value }

-- `setDebouncedApplicantName`, with the effect where the value changes.
unfoldable pub debounce : Chars → NamePage → NamePage
unfolding same reflect
debounce value p = if same value p.debounced_applicant_name then p else record p {
  debounced_applicant_name = value;
  search_params = reflect value p.search_params;
}

-- The timer ends.
unfoldable pub take_over : Option Chars → NamePage → NamePage
unfolding debounce
take_over none p = p
take_over (some value) p = debounce value (record p { timer = none })

abbrev pub fire : NamePage → NamePage
fire p = take_over p.timer p

-- handleFilterReset
unfoldable pub handle_filter_reset : NamePage → NamePage
unfolding debounce handle_applicant_name_change
handle_filter_reset p =
    debounce [] (handle_applicant_name_change [] (record p { search_params = [] }))

pub data Event : Type 0 where
  change_name : (value : Chars) → Event
  change_page change_per_page : ℕ → Event
  timer_ends reset : Event

unfoldable pub step : Event → NamePage → NamePage
unfolding handle_applicant_name_change take_over handle_filter_reset handle_page_change
    handle_per_page_change
step (change_name value) p = handle_applicant_name_change value p
step (change_page n) p = record p { search_params = handle_page_change n p.search_params }
step (change_per_page n) p = record p { search_params = handle_per_page_change n p.search_params }
step timer_ends p = fire p
step reset p = handle_filter_reset p

unfoldable pub run : List Event → NamePage → NamePage
unfolding step
run [] p = p
run (e ∷ es) p = run es (step e p)

-- What the pages ask the server for.
unfoldable pub name_params : Params → ReportListParams
unfolding page_of per_page_of get
name_params m = record {
  page = some (page_of (get "page" m));
  per_page = some (pos (per_page_of (get "per_page" m)));
  applicant_name = given (text_of "applicant_name" m);
}
