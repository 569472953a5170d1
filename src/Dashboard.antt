-- ===== src/Dashboard.antt =====
-- frontend/src/pages/dashboard/DashboardPage.tsx with MyReportCountCards.tsx, TenantStatusCards.tsx
-- and CountCard.tsx of frontend/src/components/dashboard: what each role sees, and where it leads.
pub mod Links
mod Tests
use expense_saas.Prelude.{
  String, Option, none, some, Bool, true, false, List, [], ◌∷◌, ◌++◌, if◌then◌else◌,
}
use expense_saas.Types.{Role, admin, approver, member, accounting, Severity}
use expense_saas.Texts.{Chars, codes}
use expense_saas.Pagination.{Params}

-- The counts of DashboardResponse.
pub data CountField : Type 0 where
  my_draft my_submitted my_rejected pending_approval pending_payment : CountField
  tenant_draft tenant_submitted tenant_approved tenant_rejected tenant_paid tenant_member :
      CountField

-- The count that a card shows, and the path and the query of its link.
pub record Card : Type 0 where
  pub label : String
  pub count : CountField
  pub href : Option (String × Params)

abbrev to_list : (path : String) (status : Chars) → Option (String × Params)
to_list path status = some (path, ("status", status) ∷ [])

-- MyReportCountCards
abbrev pub my_report_count_cards : List Card
my_report_count_cards =
    record { label = "下書き"; count = my_draft; href = to_list "/reports" (codes "draft") }
    ∷ record { label = "提出中"; count = my_submitted; href = to_list "/reports" (codes "submitted") }
    ∷ record { label = "却下"; count = my_rejected; href = to_list "/reports" (codes "rejected") }
    ∷ []

-- TenantStatusCards
abbrev pub tenant_status_cards : List Card
tenant_status_cards =
    record { label = "下書き"; count = tenant_draft; href = to_list "/reports/all" (codes "draft") }
    ∷ record {
      label = "提出済み";
      count = tenant_submitted;
      href = to_list "/reports/all" (codes "submitted");
    }
    ∷ record {
      label = "承認済み";
      count = tenant_approved;
      href = to_list "/reports/all" (codes "approved");
    }
    ∷ record {
      label = "却下";
      count = tenant_rejected;
      href = to_list "/reports/all" (codes "rejected");
    }
    ∷ record { label = "支払済み"; count = tenant_paid; href = to_list "/reports/all" (codes "paid") }
    ∷ []

-- The cards of a role, in order.
unfoldable pub cards : Role → List Card
cards member = my_report_count_cards
cards approver =
    my_report_count_cards
    ++ record { label = "承認待ち"; count = pending_approval; href = some ("/approvals", []) } ∷ []
cards accounting =
    my_report_count_cards
    ++ record { label = "支払待ち"; count = pending_payment; href = some ("/payments", []) } ∷ []
cards admin =
    tenant_status_cards ++ record { label = "メンバー数"; count = tenant_member; href = none } ∷ []

-- Whether the summary of the months and the latest reports are shown.
abbrev pub has_monthly_summary : Role → Bool
has_monthly_summary member = false
has_monthly_summary _ = true

abbrev pub has_recent_reports : Role → Bool
has_recent_reports admin = false
has_recent_reports _ = true

-- The two queries of the page and the toast of `location.state`, which the effect puts into the
-- state when the page opens.
pub record State : Type 0 where
  pub is_dashboard_loading : Bool
  pub is_user_loading : Bool
  pub dashboard_error : Option String
  pub has_dashboard : Bool
  pub role : Option Role
  pub redirect_toast : Option (Severity × String)

pub data Screen : Type 0 where
  skeleton nothing : Screen
  error_toast : (message : String) → Screen
  sections : (toast : Option (Severity × String)) → Role → Screen

abbrev content : Bool → Option Role → Option (Severity × String) → Screen
content true (some role) toast = sections toast role
content _ _ toast = nothing

abbrev loaded : Option String → Screen → Screen
loaded (some message) screen = error_toast message
loaded none screen = screen

-- DashboardPage
unfoldable pub dashboard_page : State → Screen
dashboard_page s =
    if s.is_dashboard_loading
    then skeleton
    else if s.is_user_loading
    then skeleton
    else loaded s.dashboard_error (content s.has_dashboard s.role s.redirect_toast)
