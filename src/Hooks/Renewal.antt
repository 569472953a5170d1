-- ===== src/Hooks/Renewal.antt =====
-- Which screens ask the server again after a change of a report.
use expense_saas.Hooks.Screens.{
  begins, IsPrefixMatch, may, opens, statuses, selects, is_edit, is_decision, is_late, concerns,
  is_mounted,
}
use expense_saas.Prelude.{
  some, Bool, true, not, any, ◌≡◌, ◌∙◌, refl, ap, arith, any-none, String, none, false,
}
use expense_saas.Types.{Role, admin, approver, member, accounting}
use expense_saas.Hooks.{
  Query, my_reports, report, pending_reports, payable_reports, processed_reports, all_reports,
  dashboard, current_user, tenant, tenant_members, categories, attachments, download_url,
  preview_url, QueryKey, ReportListParams, ProcessedReportListParams,
}
use expense_saas.Hooks.Changes.Mutations.{KeyFilter}
use expense_saas.Hooks.Changes.{
  Change, create_report, update_report, submit_report, delete_report, approve_report, reject_report,
  mark_as_paid, create_item, update_item, delete_item, upload_attachment, delete_attachment,
  stale_time, is_renewed,
}

-- The client's matching may be replaced by the one on the beginning of keys.
is_renewed-begins :
    {matches : KeyFilter → QueryKey → Bool}
    → IsPrefixMatch matches
    → (m : Bool) (c : Change) (q : Query) → is_renewed matches m c q ≡ is_renewed begins m c q
is_renewed-begins h m c q = ap (λ f. is_renewed f m c q) (λ i filter key. h filter key i)

-- A screen that is opened later and whose answer is never fresh is renewed by every change.
is_renewed-at_once :
    (c : Change) (q : Query) → stale_time q ≡ some 0 → is_renewed begins false c q ≡ true
unfolding is_renewed
is_renewed-at_once c q h = ground (arith, h)

is_renewed-dashboard :
    (c : Change)
    → any (selects dashboard) (statuses c) ≡ true
    → is_renewed begins false c dashboard ≡ not (is_edit c)
unfolding is_renewed
is_renewed-dashboard (create_report i) h = ground arith
is_renewed-dashboard (update_report i) h = ground arith
is_renewed-dashboard (submit_report i) h = ground arith
is_renewed-dashboard (delete_report i) h = ground arith
is_renewed-dashboard (approve_report i) h = ground arith
is_renewed-dashboard (reject_report i) h = ground arith
is_renewed-dashboard (mark_as_paid i) h = ground arith
is_renewed-dashboard (create_item i) h = ground arith
is_renewed-dashboard (update_item i) h = ground arith
is_renewed-dashboard (delete_item i) h = ground arith
is_renewed-dashboard (upload_attachment i) h = ground arith
is_renewed-dashboard (delete_attachment i) h = ground arith

is_renewed-pending :
    (c : Change) (p : ReportListParams)
    → any (selects (pending_reports p)) (statuses c) ≡ true
    → may approver c ≡ true
    → is_renewed begins false c (pending_reports p) ≡ true
unfolding is_renewed
is_renewed-pending (create_report i) p h m = ground arith
is_renewed-pending (update_report i) p h m = ground arith
is_renewed-pending (submit_report i) p h m = ground arith
is_renewed-pending (delete_report i) p h m = ground arith
is_renewed-pending (approve_report i) p h m = ground arith
is_renewed-pending (reject_report i) p h m = ground arith
is_renewed-pending (mark_as_paid i) p h m = ground arith
is_renewed-pending (create_item i) p h m = ground arith
is_renewed-pending (update_item i) p h m = ground arith
is_renewed-pending (delete_item i) p h m = ground arith
is_renewed-pending (upload_attachment i) p h m = ground arith
is_renewed-pending (delete_attachment i) p h m = ground arith

is_renewed-payable :
    (c : Change) (p : ReportListParams)
    → any (selects (payable_reports p)) (statuses c) ≡ true
    → may accounting c ≡ true
    → is_renewed begins false c (payable_reports p) ≡ true
unfolding is_renewed
is_renewed-payable (create_report i) p h m = ground arith
is_renewed-payable (update_report i) p h m = ground arith
is_renewed-payable (submit_report i) p h m = ground arith
is_renewed-payable (delete_report i) p h m = ground arith
is_renewed-payable (approve_report i) p h m = ground arith
is_renewed-payable (reject_report i) p h m = ground arith
is_renewed-payable (mark_as_paid i) p h m = ground arith
is_renewed-payable (create_item i) p h m = ground arith
is_renewed-payable (update_item i) p h m = ground arith
is_renewed-payable (delete_item i) p h m = ground arith
is_renewed-payable (upload_attachment i) p h m = ground arith
is_renewed-payable (delete_attachment i) p h m = ground arith

is_renewed-processed :
    (c : Change) (p : ProcessedReportListParams)
    → any (selects (processed_reports p)) (statuses c) ≡ true
    → may approver c ≡ true
    → is_renewed begins false c (processed_reports p) ≡ not (is_decision c)
unfolding is_renewed
is_renewed-processed (create_report i) p h m = ground arith
is_renewed-processed (update_report i) p h m = ground arith
is_renewed-processed (submit_report i) p h m = ground arith
is_renewed-processed (delete_report i) p h m = ground arith
is_renewed-processed (approve_report i) p h m = ground arith
is_renewed-processed (reject_report i) p h m = ground arith
is_renewed-processed (mark_as_paid i) p h m = ground arith
is_renewed-processed (create_item i) p h m = ground arith
is_renewed-processed (update_item i) p h m = ground arith
is_renewed-processed (delete_item i) p h m = ground arith
is_renewed-processed (upload_attachment i) p h m = ground arith
is_renewed-processed (delete_attachment i) p h m = ground arith

is_renewed-report :
    (c : Change) (id : String)
    → concerns c (report (some id)) ≡ true
    → is_renewed begins true c (report (some id)) ≡ true
unfolding is_renewed
is_renewed-report (create_report i) id h = ground (arith, h)
is_renewed-report (update_report i) id h = ground (arith, h)
is_renewed-report (submit_report i) id h = ground (arith, h)
is_renewed-report (delete_report i) id h = ground (arith, h)
is_renewed-report (approve_report i) id h = ground (arith, h)
is_renewed-report (reject_report i) id h = ground (arith, h)
is_renewed-report (mark_as_paid i) id h = ground (arith, h)
is_renewed-report (create_item i) id h = ground (arith, h)
is_renewed-report (update_item i) id h = ground (arith, h)
is_renewed-report (delete_item i) id h = ground (arith, h)
is_renewed-report (upload_attachment i) id h = ground (arith, h)
is_renewed-report (delete_attachment i) id h = ground (arith, h)

is_renewed-files :
    (c : Change) (r i : String)
    → concerns c (attachments r i) ≡ true
    → is_renewed begins true c (attachments r i) ≡ true
unfolding is_renewed
is_renewed-files (upload_attachment p) r i h = ground (arith, h)
is_renewed-files (delete_attachment p) r i h = ground (arith, h)
is_renewed-files _ r i h = absurd (ground (arith, h))

is_renewed-late :
    (role : Role) (c : Change) (q : Query)
    → may role c ≡ true
    → opens role q ≡ true
    → concerns c q ≡ true
    → is_renewed begins (is_mounted q) c q ≡ not (is_late c q)
unfolding stale_time
is_renewed-late role c (my_reports p) m o h = is_renewed-at_once c (my_reports p) refl
is_renewed-late role c (report (some id)) m o h = is_renewed-report c id h
is_renewed-late role c (report none) m o h =
    absurd (ground (arith, any-none (selects (report none)) (λ s. refl) (statuses c)))
is_renewed-late role c (all_reports p) m o h = is_renewed-at_once c (all_reports p) refl
is_renewed-late role c dashboard m o h = is_renewed-dashboard c h
is_renewed-late approver c (pending_reports p) m o h = is_renewed-pending c p h m
is_renewed-late admin c (pending_reports p) m o h = absurd (ground arith)
is_renewed-late member c (pending_reports p) m o h = absurd (ground arith)
is_renewed-late accounting c (pending_reports p) m o h = absurd (ground arith)
is_renewed-late accounting c (payable_reports p) m o h = is_renewed-payable c p h m
is_renewed-late admin c (payable_reports p) m o h = absurd (ground arith)
is_renewed-late approver c (payable_reports p) m o h = absurd (ground arith)
is_renewed-late member c (payable_reports p) m o h = absurd (ground arith)
is_renewed-late approver c (processed_reports p) m o h = is_renewed-processed c p h m
is_renewed-late admin c (processed_reports p) m o h = absurd (ground arith)
is_renewed-late member c (processed_reports p) m o h = absurd (ground arith)
is_renewed-late accounting c (processed_reports p) m o h = absurd (ground arith)
is_renewed-late role c current_user m o h =
    absurd (ground (arith, any-none (selects current_user) (λ s. refl) (statuses c)))
is_renewed-late role c tenant m o h =
    absurd (ground (arith, any-none (selects tenant) (λ s. refl) (statuses c)))
is_renewed-late role c tenant_members m o h =
    absurd (ground (arith, any-none (selects tenant_members) (λ s. refl) (statuses c)))
is_renewed-late role c categories m o h =
    absurd (ground (arith, any-none (selects categories) (λ s. refl) (statuses c)))
is_renewed-late role c (attachments r i) m o h = is_renewed-files c r i h
is_renewed-late role c (download_url r i a) m o h =
    absurd (ground (arith, any-none (selects (download_url r i a)) (λ s. refl) (statuses c)))
is_renewed-late role c (preview_url r i a) m o h =
    absurd (ground (arith, any-none (selects (preview_url r i a)) (λ s. refl) (statuses c)))

-- After a change that a role can make, every screen that the role can open and whose query answers
-- what was changed asks the server again, however fresh the answer in the cache; but for two cases,
-- where the answer of the cache stays: the dashboard after an edit of the report or of its items,
-- and the processed reports after a decision. The detail of the report and the list of the
-- attachments are on the screen when they change; the lists and the dashboard, which are concerned
-- where they select the report in its status before or after the change, are opened later. The query
-- client is taken to compare a filter with the beginning of a key.
pub is_renewed-is_late :
    {matches : KeyFilter → QueryKey → Bool}
    → IsPrefixMatch matches
    → (role : Role) (c : Change) (q : Query) → may role c ≡ true
    → opens role q ≡ true
    → concerns c q ≡ true
    → is_renewed matches (is_mounted q) c q ≡ not (is_late c q)
is_renewed-is_late prefix role c q m o h =
    is_renewed-begins prefix (is_mounted q) c q ∙ is_renewed-late role c q m o h
