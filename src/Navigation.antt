-- ===== src/Navigation.antt =====
-- The roles of the screens: NAV_ITEMS and the active item of
-- frontend/src/components/layout/AppSidebar.tsx, the routes of App.tsx, and the guards of the pages
-- ApprovalListPage, PaymentListPage, ProcessedReportsPage, AllReportsPage and TenantPage.
pub mod Access
mod Tests
use Prim.Native.String
use expense_saas.Prelude.{
  ℕ, String, Option, none, some, Bool, true, false, List, [], ◌∷◌, ◌==◌, ◌||◌, ◌&&◌, not, leb, any,
  str_eq, if◌then◌else◌,
}
use expense_saas.Types.{Role, admin, approver, member, accounting}
use expense_saas.Texts.{Chars, codes}

-- An item of the side bar, without its icon.
pub record NavItem : Type 0 where
  pub label : String
  pub path : String
  pub roles : List Role

abbrev everyone : List Role
everyone = admin ∷ approver ∷ member ∷ accounting ∷ []

-- NAV_ITEMS
abbrev pub nav_items : List NavItem
nav_items =
    record { label = "ダッシュボード"; path = "/dashboard"; roles = everyone }
    ∷ record { label = "マイレポート"; path = "/reports"; roles = everyone }
    ∷ record { label = "レポート作成"; path = "/reports/new"; roles = everyone }
    ∷ record { label = "承認待ち"; path = "/approvals"; roles = approver ∷ [] }
    ∷ record { label = "処理済み"; path = "/approvals/processed"; roles = approver ∷ [] }
    ∷ record { label = "支払待ち"; path = "/payments"; roles = accounting ∷ [] }
    ∷ record { label = "全レポート"; path = "/reports/all"; roles = accounting ∷ admin ∷ [] }
    ∷ record { label = "テナント情報"; path = "/settings/tenant"; roles = admin ∷ [] }
    ∷ []

-- `===` on roles
abbrev pub is_role : Role → Role → Bool
is_role admin admin = true
is_role approver approver = true
is_role member member = true
is_role accounting accounting = true
is_role _ _ = false

-- `visibleItems`
unfoldable pub is_visible : Role → NavItem → Bool
is_visible role item = any (is_role role) item.roles

-- `s.startsWith(p)`
unfoldable pub starts_with : Chars → Chars → Bool
starts_with s [] = true
starts_with [] (_ ∷ _) = false
starts_with (a ∷ s) (b ∷ p) = a == b && starts_with s p

-- `isActive`
unfoldable pub is_active : (current_path : String) → NavItem → Bool
unfolding starts_with
is_active current_path item =
    if str_eq item.path "/dashboard"
    then str_eq current_path "/dashboard"
    else starts_with (codes current_path) (codes item.path)

-- The elements of the routes that need a session.
pub data Page : Type 0 where
  home dashboard report_list report_create all_reports report_detail report_edit : Page
  approval_list processed_reports payment_list tenant not_found : Page

-- The routes of App.tsx whose path has no parameter; `none` is left to those with one.
unfoldable pub page_at : String → Option Page
page_at path =
    if str_eq path "/"
    then some home
    else if str_eq path "/dashboard"
    then some dashboard
    else if str_eq path "/reports"
    then some report_list
    else if str_eq path "/reports/new"
    then some report_create
    else if str_eq path "/reports/all"
    then some all_reports
    else if str_eq path "/approvals"
    then some approval_list
    else if str_eq path "/approvals/processed"
    then some processed_reports
    else if str_eq path "/payments"
    then some payment_list
    else if str_eq path "/settings/tenant"
    then some tenant
    else none

-- The user as far as it is loaded, and the error of the page's request with its status; an error of
-- the network has none.
pub record View : Type 0 where
  pub role : Option Role
  pub error : Option (Option ℕ)

-- What a page does: it leaves for the dashboard with the toast of a missing permission, shows the
-- toast of an error, shows its content.
pub record Outcome : Type 0 where
  pub redirects : Bool
  pub error_toast : Bool
  pub has_content : Bool

abbrev is_known_and_not : (Role → Bool) → Option Role → Bool
is_known_and_not p none = false
is_known_and_not p (some role) = not (p role)

abbrev is_known_and : (Role → Bool) → Option Role → Bool
is_known_and p none = false
is_known_and p (some role) = p role

abbrev is_403 : Option (Option ℕ) → Bool
is_403 (some (some status)) = status == 403
is_403 _ = false

abbrev is_other_than_403 : Option (Option ℕ) → Bool
is_other_than_403 none = false
is_other_than_403 (some none) = true
is_other_than_403 (some (some status)) = not (status == 403)

abbrev is_from_500 : Option (Option ℕ) → Bool
is_from_500 (some (some status)) = leb 500 status
is_from_500 _ = false

-- ApprovalListPage; the pages PaymentListPage and ProcessedReportsPage have their own copies.
unfoldable pub approval_list_page : View → Outcome
approval_list_page v = record {
  redirects = is_known_and_not (is_role approver) v.role || is_403 v.error;
  error_toast = is_other_than_403 v.error && is_known_and (is_role approver) v.role;
  has_content = is_known_and (is_role approver) v.role;
}

unfoldable pub payment_list_page : View → Outcome
payment_list_page v = record {
  redirects = is_known_and_not (is_role accounting) v.role || is_403 v.error;
  error_toast = is_other_than_403 v.error && is_known_and (is_role accounting) v.role;
  has_content = is_known_and (is_role accounting) v.role;
}

unfoldable pub processed_reports_page : View → Outcome
processed_reports_page v = record {
  redirects = is_known_and_not (is_role approver) v.role || is_403 v.error;
  error_toast = is_other_than_403 v.error && is_known_and (is_role approver) v.role;
  has_content = is_known_and (is_role approver) v.role;
}

-- AllReportsPage and TenantPage show their frame to everyone until they leave.
unfoldable pub all_reports_page : View → Outcome
all_reports_page v = record {
  redirects =
      is_known_and_not (λ r. is_role admin r || is_role accounting r) v.role || is_403 v.error;
  error_toast = is_from_500 v.error;
  has_content = true;
}

unfoldable pub tenant_page : View → Outcome
tenant_page v = record {
  redirects = is_known_and_not (is_role admin) v.role || is_403 v.error;
  error_toast = is_from_500 v.error;
  has_content = true;
}

abbrev unguarded : Outcome
unguarded = record { redirects = false; error_toast = false; has_content = true }

-- The guard of a page; `/` leads to the dashboard.
unfoldable pub guard : Page → View → Outcome
unfolding approval_list_page payment_list_page processed_reports_page all_reports_page tenant_page
guard approval_list v = approval_list_page v
guard payment_list v = payment_list_page v
guard processed_reports v = processed_reports_page v
guard all_reports v = all_reports_page v
guard tenant v = tenant_page v
guard _ v = unguarded
