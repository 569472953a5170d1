-- ===== src/Dashboard/Links.antt =====
-- The cards of the dashboard against the pages that they lead to: what the server counts for a card
-- (internal/service/dashboard_service.go) and what it lists on a page (db/queries/expense_reports.sql).
use expense_saas.Prelude.{
  String, Option, none, some, Bool, true, false, All, ◌&&◌, not, str_eq, ◌≡◌, refl,
}
use expense_saas.Types.{
  Role, admin, approver, member, accounting, ReportStatus, draft, submitted, approved, rejected,
  paid,
}
use expense_saas.Texts.{Chars, codes, same}
use expense_saas.Pagination.{Params}
use expense_saas.ListPages.{my_reports_params}
use expense_saas.ListPages.AllReports.{all_reports_params}
use expense_saas.ListPages.Names.{name_params}
use expense_saas.Navigation.{
  Page, page_at, guard, report_list, all_reports, approval_list, payment_list,
}
use expense_saas.Dashboard.{
  CountField, my_draft, my_submitted, my_rejected, pending_approval, pending_payment, tenant_draft,
  tenant_submitted, tenant_approved, tenant_rejected, tenant_paid, tenant_member, Card, cards,
}

-- A report of the tenant that is not deleted, and its status as the database has it.
pub record Report : Type 0 where
  pub user_id : String
  pub status : ReportStatus

abbrev status_text : ReportStatus → Chars
status_text draft = codes "draft"
status_text submitted = codes "submitted"
status_text approved = codes "approved"
status_text rejected = codes "rejected"
status_text paid = codes "paid"

abbrev has_status : ReportStatus → Report → Bool
has_status s r = same (status_text s) (status_text r.status)

abbrev is_own : (user_id : String) → Report → Bool
is_own user_id r = str_eq r.user_id user_id

-- fillMyFields, fillApproverFields, fillAccountingFields and fillAdminFields: whether a report is
-- counted for the user. The members are not reports.
unfoldable pub counts : CountField → (user_id : String) → Report → Bool
unfolding same
counts my_draft u r = is_own u r && has_status draft r
counts my_submitted u r = is_own u r && has_status submitted r
counts my_rejected u r = is_own u r && has_status rejected r
counts pending_approval u r = has_status submitted r && not (is_own u r)
counts pending_payment u r = has_status approved r
counts tenant_draft u r = has_status draft r
counts tenant_submitted u r = has_status submitted r
counts tenant_approved u r = has_status approved r
counts tenant_rejected u r = has_status rejected r
counts tenant_paid u r = has_status paid r
counts tenant_member u r = false

-- `narg('status') IS NULL OR status = narg('status')`
abbrev matches_status : Option Chars → Report → Bool
matches_status none r = true
matches_status (some s) r = same s (status_text r.status)

-- ListReportsByUser, ListAllReports, ListPendingReports and ListPayableReports: whether a report is
-- on the list of a page at a query that has no other filter.
unfoldable pub lists : Page → Params → (user_id : String) → Report → Bool
unfolding same my_reports_params all_reports_params
lists report_list m u r = is_own u r && matches_status (my_reports_params m).status r
lists all_reports m u r = matches_status (all_reports_params m).status r
lists approval_list m u r = has_status submitted r
lists payment_list m u r = has_status approved r
lists _ m u r = false

-- The query asks for no filter but the status.
abbrev IsUnfiltered : Page → Params → Type 0
IsUnfiltered report_list m = ((my_reports_params m).from ≡ none) × ((my_reports_params m).to ≡ none)
IsUnfiltered all_reports m =
    ((all_reports_params m).from ≡ none)
    × ((all_reports_params m).to ≡ none)
    × ((all_reports_params m).submitter_id ≡ none)
IsUnfiltered _ m = (name_params m).applicant_name ≡ none

-- Which of the listed reports the card counts: all of them, but where an approval is waited for those
-- of others only.
abbrev pub of_others : CountField → (is_own : Bool) → (is_listed : Bool) → Bool
of_others pending_approval is_own is_listed = is_listed && not is_own
of_others _ is_own is_listed = is_listed

abbrev Leads : CountField → Role → (user_id : String) → Report → Option (String × Params) → Type 0
Leads field role u r none = field ≡ tenant_member
Leads field role u r (some (path, query)) =
    (page : Page) × (page_at path ≡ some page)
    × ((guard page record { role = some role; error = none }).redirects ≡ false)
    × IsUnfiltered page query
    × (counts field u r ≡ of_others field (is_own u r) (lists page query u r))

-- The link of a card leads to a page that lets the role stay, and that lists the reports that the
-- card counts.
abbrev pub LeadsToSource : Role → (user_id : String) → Report → Card → Type 0
LeadsToSource role u r card = Leads card.count role u r card.href

-- On the dashboard of every role, each card but that of the number of members has a link to a page
-- that lets the role stay and that asks the server for no other filter than a status. A report is
-- counted on the card exactly if it is listed on that page; but the card of the reports that wait
-- for an approval leaves out the user's own, while the page lists them, too.
pub cards-LeadsToSource :
    (role : Role) (user_id : String) (r : Report) → All (LeadsToSource role user_id r) (cards role)
unfolding cards page_at guard my_reports_params all_reports_params name_params counts lists
cards-LeadsToSource member u r = (
  (report_list, refl, refl, (refl, refl), refl),
  (
    (report_list, refl, refl, (refl, refl), refl),
    ((report_list, refl, refl, (refl, refl), refl), tt),
  ),
)
cards-LeadsToSource approver u r = (
  (report_list, refl, refl, (refl, refl), refl),
  (
    (report_list, refl, refl, (refl, refl), refl),
    ((report_list, refl, refl, (refl, refl), refl), ((approval_list, refl, refl, refl, refl), tt)),
  ),
)
cards-LeadsToSource accounting u r = (
  (report_list, refl, refl, (refl, refl), refl),
  (
    (report_list, refl, refl, (refl, refl), refl),
    ((report_list, refl, refl, (refl, refl), refl), ((payment_list, refl, refl, refl, refl), tt)),
  ),
)
cards-LeadsToSource admin u r = (
  (all_reports, refl, refl, (refl, refl, refl), refl),
  (
    (all_reports, refl, refl, (refl, refl, refl), refl),
    (
      (all_reports, refl, refl, (refl, refl, refl), refl),
      (
        (all_reports, refl, refl, (refl, refl, refl), refl),
        ((all_reports, refl, refl, (refl, refl, refl), refl), (refl, tt)),
      ),
    ),
  ),
)
