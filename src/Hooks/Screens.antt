-- ===== src/Hooks/Screens.antt =====
-- The screens that use the queries of frontend/src/hooks: the roles of the pages and of the buttons,
-- and the reports that the server selects (db/queries/expense_reports.sql).
use expense_saas.Prelude.{Bool, true, false, List, [], ◌∷◌, ◌&&◌, str_eq, ◌≡◌, String, some, any}
use expense_saas.Types.{
  Role, admin, approver, accounting, ReportStatus, draft, submitted, approved, rejected, paid,
}
use expense_saas.Hooks.{
  Query, my_reports, report, pending_reports, payable_reports, processed_reports, all_reports,
  dashboard, tenant, Part, QueryKey, attachments,
}
use expense_saas.Hooks.Changes.Mutations.{KeyFilter}
use expense_saas.Hooks.Changes.{
  Change, create_report, update_report, submit_report, delete_report, approve_report, reject_report,
  mark_as_paid, create_item, update_item, delete_item, upload_attachment, delete_attachment,
}

-- A key begins with the texts of a filter.
abbrev pub begins : KeyFilter → QueryKey → Bool
begins [] key = true
begins (s ∷ filter) (Part.text t ∷ key) = str_eq s t && begins filter key
begins (s ∷ filter) _ = false

-- The query client compares a filter of texts with the beginning of a key.
abbrev pub IsPrefixMatch : (KeyFilter → QueryKey → Bool) → Type 0
IsPrefixMatch matches =
    (filter : KeyFilter) (key : QueryKey) → matches filter key ≡ begins filter key

-- The changes that a role can make, and the queries whose screens it can open.
abbrev pub may : Role → Change → Bool
may approver (approve_report _) = true
may approver (reject_report _) = true
may accounting (mark_as_paid _) = true
may _ (approve_report _) = false
may _ (reject_report _) = false
may _ (mark_as_paid _) = false
may _ _ = true

abbrev pub opens : Role → Query → Bool
opens approver (pending_reports _) = true
opens approver (processed_reports _) = true
opens accounting (payable_reports _) = true
opens accounting (all_reports _) = true
opens admin (all_reports _) = true
opens admin tenant = true
opens _ (pending_reports _) = false
opens _ (processed_reports _) = false
opens _ (payable_reports _) = false
opens _ (all_reports _) = false
opens _ tenant = false
opens _ _ = true

-- The statuses of the report before and after a change of what the lists show; the lists do not show
-- the attachments.
abbrev pub statuses : Change → List ReportStatus
statuses (create_report _) = draft ∷ []
statuses (update_report _) = draft ∷ []
statuses (submit_report _) = draft ∷ submitted ∷ []
statuses (delete_report _) = draft ∷ []
statuses (approve_report _) = submitted ∷ approved ∷ []
statuses (reject_report _) = submitted ∷ rejected ∷ []
statuses (mark_as_paid _) = approved ∷ paid ∷ []
statuses (create_item _) = draft ∷ []
statuses (update_item _) = draft ∷ []
statuses (delete_item _) = draft ∷ []
statuses (upload_attachment _) = []
statuses (delete_attachment _) = []

-- The query selects reports in the status. The dashboard counts and lists them all.
abbrev pub selects : Query → ReportStatus → Bool
selects (pending_reports _) submitted = true
selects (pending_reports _) _ = false
selects (payable_reports _) approved = true
selects (payable_reports _) _ = false
selects (processed_reports _) approved = true
selects (processed_reports _) rejected = true
selects (processed_reports _) paid = true
selects (processed_reports _) _ = false
selects (my_reports _) _ = true
selects (all_reports _) _ = true
selects dashboard _ = true
selects _ _ = false

-- The change is one of the report, or of its items or their attachments, which are part of the
-- report's detail. A report that is created or deleted has no detail on the screen.
abbrev is_of_report : Change → String → Bool
is_of_report (create_report _) id = false
is_of_report (delete_report _) id = false
is_of_report (update_report i) id = str_eq i.id id
is_of_report (submit_report i) id = str_eq i.id id
is_of_report (approve_report i) id = str_eq i.id id
is_of_report (reject_report i) id = str_eq i.id id
is_of_report (mark_as_paid i) id = str_eq i.id id
is_of_report (create_item i) id = str_eq i.report_id id
is_of_report (update_item i) id = str_eq i.report_id id
is_of_report (delete_item i) id = str_eq i.report_id id
is_of_report (upload_attachment p) id = str_eq p.report_id id
is_of_report (delete_attachment p) id = str_eq p.report_id id

abbrev is_of_files : Change → (report_id item_id : String) → Bool
is_of_files (upload_attachment p) r i = str_eq p.report_id r && str_eq p.item_id i
is_of_files (delete_attachment p) r i = str_eq p.report_id r && str_eq p.item_id i
is_of_files _ r i = false

-- The change is one of what the query answers.
abbrev pub concerns : Change → Query → Bool
concerns c (report (some id)) = is_of_report c id
concerns c (attachments r i) = is_of_files c r i
concerns c q = any (selects q) (statuses c)

-- The changes of a report are made on ReportDetailPage and ReportEditPage, which use its detail, those
-- of the attachments in AttachmentArea, which uses their list; the other screens are opened later.
abbrev pub is_mounted : Query → Bool
is_mounted (report _) = true
is_mounted (attachments _ _) = true
is_mounted _ = false

-- The gaps: the dashboard after a change of the title, the period or the items, and the list of
-- processed reports after a decision.
abbrev pub is_edit : Change → Bool
is_edit (update_report _) = true
is_edit (create_item _) = true
is_edit (update_item _) = true
is_edit (delete_item _) = true
is_edit _ = false

abbrev pub is_decision : Change → Bool
is_decision (approve_report _) = true
is_decision (reject_report _) = true
is_decision _ = false

abbrev pub is_late : Change → Query → Bool
is_late c dashboard = is_edit c
is_late c (processed_reports _) = is_decision c
is_late c _ = false
