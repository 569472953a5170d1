-- ===== src/Dashboard/Tests.antt =====
-- The dashboard of an approver.
use expense_saas.Prelude.{some, none, true, false, [], All, ◌≡◌, refl}
use expense_saas.Types.{approver, submitted}
use expense_saas.Navigation.{approval_list}
use expense_saas.Dashboard.{pending_approval, cards, dashboard_page, error_toast}
use expense_saas.Dashboard.Links.{Report, counts, lists, LeadsToSource, cards-LeadsToSource}

abbrev own_report : Report
own_report = record { user_id = "bob"; status = submitted }

cards-LeadsToSource_example : All (LeadsToSource approver "bob" own_report) (cards approver)
cards-LeadsToSource_example = cards-LeadsToSource approver "bob" own_report

-- An approver's own report waits on the list, and is not counted.
own_listed :
    (lists approval_list [] "bob" own_report ≡ true)
    × (counts pending_approval "bob" own_report ≡ false)
unfolding lists counts
own_listed = (refl, refl)

-- An error of the dashboard hides its sections.
failed :
    dashboard_page record {
      is_dashboard_loading = false;
      is_user_loading = false;
      dashboard_error = some "no";
      has_dashboard = false;
      role = some approver;
      redirect_toast = none;
    }
    ≡ error_toast "no"
unfolding dashboard_page
failed = refl
