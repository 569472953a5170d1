-- ===== src/Hooks/Tests.antt =====
-- The queries of an approver and of the owner of a report.
use expense_saas.Hooks.Changes.Mutations.{ApproveReportInput}
use expense_saas.Prelude.{none, some, true, [], ◌∷◌, ◌≡◌, refl, not, false}
use expense_saas.Types.{approver}
use expense_saas.Texts.{pos, codes}
use expense_saas.Hooks.{Query, MyReportsParams, my_reports, processed_reports, dashboard, url}
use expense_saas.Hooks.Keys.{query_key-url}
use expense_saas.Hooks.Changes.{approve_report, submit_report, is_renewed}
use expense_saas.Hooks.Screens.{begins}
use expense_saas.Hooks.Renewal.{is_renewed-is_late}

abbrev drafts : MyReportsParams
drafts = record {
  page = some (pos 2);
  per_page = some (pos 20);
  status = some (codes "draft");
  from = none;
  to = none;
}

drafts_url :
    (url (my_reports drafts)).query
    ≡ ("page", codes "2") ∷ ("per_page", codes "20") ∷ ("status", codes "draft") ∷ []
unfolding url
drafts_url = refl

query_key-url_example : url (my_reports drafts) ≡ url (my_reports drafts)
query_key-url_example = query_key-url (my_reports drafts) (my_reports drafts) refl

abbrev approval : ApproveReportInput
approval = record { id = "r"; comment = none; updated_at = "t" }

abbrev processed : Query
processed = processed_reports record { page = some (pos 1); per_page = some (pos 20) }

renewed :
    is_renewed begins false (submit_report record { id = "r"; updated_at = "t" }) dashboard ≡ true
unfolding is_renewed
renewed = refl

is_renewed-is_late_example : is_renewed begins false (approve_report approval) processed ≡ not true
is_renewed-is_late_example =
    is_renewed-is_late (λ filter key. refl) approver (approve_report approval) processed refl refl
      refl
