-- ===== src/ListPages/Workflow.antt =====
-- What the pages of the workflow show: frontend/src/pages/workflow/ApprovalListPage.tsx,
-- PaymentListPage.tsx and ProcessedReportsPage.tsx, with AppPaginationFooter.tsx below the table.
-- How an amount and a date read in Japanese is left to the browser.
pub mod Rows
pub mod Handlers
pub mod Tables
mod Tests
use expense_saas.Prelude.{
  ℕ, String, Option, none, some, Bool, false, List, [], ◌∷◌, ◌==◌, ◌||◌, ◌&&◌, map, if◌then◌else◌,
}
use expense_saas.Types.{Role, approver, accounting}
use expense_saas.Texts.{Chars, Number, pos, is_given}
use expense_saas.ListPages.Workflow.Rows.{
  PendingReport, PayableReport, ProcessedReport, Row, pending_columns, pending_row, payable_columns,
  payable_row, processed_columns, processed_row,
}
use expense_saas.Navigation.{is_role}
use expense_saas.Pagination.{
  Params, get, Count, count_of, normalized_total_pages, page_sizes, default_standard_options,
}
use expense_saas.ListPages.{page_of, per_page_of, text_of}
use expense_saas.ListPages.Names.{NamePage}

-- The pagination of an answer.
pub record Pagination : Type 0 where
  pub current_page : ℕ
  pub per_page : ℕ
  pub total_count : ℕ
  pub total_pages : ℕ

-- AppPaginationFooter: the count is left out where the total is not known.
pub record Footer : Type 0 where
  pub count : Option Count
  pub current_page : Number
  pub total_pages : ℕ
  pub per_page : ℕ
  pub sizes : List ℕ
  pub disabled : Bool

unfoldable pub footer_of :
    (answer : Option Pagination) (page : Number) (per_page : ℕ) (is_loading : Bool) → Footer
unfolding count_of page_sizes
footer_of none page per_page is_loading = record {
  count = none;
  current_page = page;
  total_pages = normalized_total_pages 1;
  per_page = per_page;
  sizes = page_sizes default_standard_options per_page;
  disabled = is_loading;
}
footer_of (some a) page per_page is_loading = record {
  count = some (count_of a.current_page a.per_page a.total_count);
  current_page = pos a.current_page;
  total_pages = normalized_total_pages a.total_pages;
  per_page = a.per_page;
  sizes = page_sizes default_standard_options a.per_page;
  disabled = is_loading;
}

-- The filter on the name, with FilterResetButton.
pub record NameFilterView : Type 0 where
  pub value : Chars
  pub can_reset : Bool

pub data Body : Type 0 where
  skeleton : Body
  table :
      (counted : Option (ℕ × String)) (columns : List String) (rows : List Row)
      (empty_message : String) (footer : Footer)
      → Body

pub record ListView : Type 0 where
  pub title : String
  pub filter : Option NameFilterView
  pub body : Body

-- The answer of a query: while it is loading there is none.
pub record Answer (A : Type 0) : Type 0 where
  pub is_loading : Bool
  pub reports : List A
  pub pagination : Option Pagination

abbrev total_of : Option Pagination → ℕ
total_of none = 0
total_of (some a) = a.total_count

-- `reports.length > 0 && …`
abbrev counted_line : {A : Type 0} → List A → ℕ → String → Option (ℕ × String)
counted_line [] n text = none
counted_line (r ∷ rs) n text = some (n, text)

abbrev is_known : Option Role → Role → Bool
is_known none wanted = false
is_known (some r) wanted = is_role wanted r

abbrev empty_message_of : (is_filtered : Bool) (otherwise : String) → String
empty_message_of is_filtered otherwise = if is_filtered then "条件に一致するレポートはありません。" else otherwise

unfoldable pub approval_list_view :
    (role : Option Role) → NamePage → Answer PendingReport → Option ListView
unfolding pending_row footer_of get page_of per_page_of
approval_list_view role p a =
    let is_filtered = is_given (text_of "applicant_name" p.search_params) in
    let page = page_of (get "page" p.search_params) in
    let per_page = per_page_of (get "per_page" p.search_params) in
    let body : Body =
      if a.is_loading
      then skeleton
      else table (counted_line a.reports (total_of a.pagination) " 件の承認待ちレポート") pending_columns
          (map pending_row a.reports) (empty_message_of is_filtered "承認待ちのレポートはありません。")
          (footer_of a.pagination page per_page a.is_loading) in
    if is_known role approver
    then some (record {
      title = "承認待ち一覧";
      filter = some (record { value = p.applicant_name_input; can_reset = is_filtered });
      body = body;
    })
    else none

unfoldable pub payment_list_view :
    (role : Option Role) → NamePage → Answer PayableReport → Option ListView
unfolding payable_row footer_of get page_of per_page_of
payment_list_view role p a =
    let is_filtered = is_given (text_of "applicant_name" p.search_params) in
    let page = page_of (get "page" p.search_params) in
    let per_page = per_page_of (get "per_page" p.search_params) in
    let body : Body =
      if a.is_loading
      then skeleton
      else table (counted_line a.reports (total_of a.pagination) " 件の支払待ちレポート") payable_columns
          (map payable_row a.reports) (empty_message_of is_filtered "支払待ちのレポートはありません。")
          (footer_of a.pagination page per_page a.is_loading) in
    if is_known role accounting
    then some (record {
      title = "支払待ち一覧";
      filter = some (record { value = p.applicant_name_input; can_reset = is_filtered });
      body = body;
    })
    else none

unfoldable pub processed_reports_view :
    (role : Option Role) → Params → Answer ProcessedReport → Option ListView
unfolding processed_row footer_of get page_of per_page_of
processed_reports_view role m a =
    let page = page_of (get "page" m) in
    let per_page = per_page_of (get "per_page" m) in
    let body : Body =
      if a.is_loading
      then skeleton
      else table none processed_columns (map processed_row a.reports) "処理済みのレポートはありません。"
          (footer_of a.pagination page per_page a.is_loading) in
    if is_known role approver
    then some (record { title = "処理済みレポート一覧"; filter = none; body = body })
    else none
