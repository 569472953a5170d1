-- ===== src/ListPages/Workflow/Handlers.antt =====
-- The handlers of PaymentListPage.tsx and ProcessedReportsPage.tsx, which are copies of others.
use expense_saas.Prelude.{ℕ, some, List, [], ◌∷◌, ◌≡◌, ◌∙◌, refl, ap}
use expense_saas.Texts.{Number, pos, string}
use expense_saas.Pagination.{
  Params, get, set, first_page, handle_page_change, handle_per_page_change,
}
use expense_saas.Pagination.Queries.{get-set, get-set_other}
use expense_saas.Hooks.{ReportListParams, ProcessedReportListParams}
use expense_saas.ListPages.{page_of, per_page_of}
use expense_saas.ListPages.Refinement.{page_of-first, page_of-string, per_page_of-string}
use expense_saas.ListPages.Names.{NamePage, name_params}
use expense_saas.ListPages.Names

-- PaymentListPage: its own copies of the handlers and of the parameters.
unfoldable pub payment_open_page : Params → NamePage
unfolding Names.open_page
payment_open_page m = Names.open_page m

unfoldable pub payment_step : Names.Event → NamePage → NamePage
unfolding Names.step
payment_step e p = Names.step e p

unfoldable pub payable_params : NamePage → ReportListParams
unfolding name_params
payable_params p = name_params p.search_params

-- ProcessedReportsPage
pub data Event : Type 0 where
  change_page change_per_page : ℕ → Event

unfoldable pub processed_step : Event → Params → Params
unfolding handle_page_change handle_per_page_change
processed_step (change_page n) m = handle_page_change n m
processed_step (change_per_page n) m = handle_per_page_change n m

unfoldable pub processed_run : List Event → Params → Params
unfolding processed_step
processed_run [] m = m
processed_run (e ∷ es) m = processed_run es (processed_step e m)

unfoldable pub processed_params : Params → ProcessedReportListParams
unfolding page_of per_page_of get
processed_params m = record {
  page = some (page_of (get "page" m));
  per_page = some (pos (per_page_of (get "per_page" m)));
}

-- The page and the page size that the user has chosen.
abbrev choose : Event → Number × ℕ → Number × ℕ
choose (change_page n) (page, size) = (pos n, size)
choose (change_per_page n) (page, size) = (pos 1, n)

unfoldable pub choose_all : List Event → Number × ℕ → Number × ℕ
choose_all [] c = c
choose_all (e ∷ es) c = choose_all es (choose e c)

unfoldable pub choice_of : Params → Number × ℕ
choice_of m = (page_of (get "page" m), per_page_of (get "per_page" m))

choice_of-step : (e : Event) (m : Params) → choice_of (processed_step e m) ≡ choose e (choice_of m)
unfolding choice_of processed_step handle_page_change handle_per_page_change
choice_of-step (change_page n) m = rw (
  get-set "page" (string n) m,
  get-set_other "page" "per_page" (string n) m refl,
  page_of-string n,
)
choice_of-step (change_per_page n) m =
    let sized = set "per_page" (string n) m in
    rw (
      get-set "page" first_page sized,
      get-set_other "page" "per_page" first_page sized refl,
      get-set "per_page" (string n) m,
      page_of-first,
      per_page_of-string n,
    )

choice_of-run :
    (es : List Event) (m : Params) → choice_of (processed_run es m) ≡ choose_all es (choice_of m)
unfolding processed_run choose_all
choice_of-run [] m = refl
choice_of-run (e ∷ es) m =
    choice_of-run es (processed_step e m) ∙ ap (choose_all es) (choice_of-step e m)

abbrev pub ask : Number × ℕ → ProcessedReportListParams
ask c = record { page = some c.0; per_page = some (pos c.1) }

processed_params-choice_of : (m : Params) → processed_params m ≡ ask (choice_of m)
unfolding processed_params choice_of
processed_params-choice_of m = refl

-- However the user goes through ProcessedReportsPage, the page asks for the last page and page size
-- that were chosen, with the first page after a change of the size.
processed_params-run :
    (es : List Event) (m : Params)
    → processed_params (processed_run es m) ≡ ask (choose_all es (choice_of m))
processed_params-run es m =
    processed_params-choice_of (processed_run es m) ∙ ap ask (choice_of-run es m)
