-- ===== src/Hooks/Changes.antt =====
-- frontend/src/hooks: the mutations of useReports.ts, useItems.ts, useApproveReport.ts,
-- useRejectReport.ts, useMarkAsPaid.ts, useUploadAttachment.ts and useDeleteAttachment.ts, and how
-- long an answer counts as fresh. Matching of keys is the query client's.
pub mod Mutations
use expense_saas.Prelude.{
  ℕ, String, Option, none, some, Bool, false, List, ◌∷◌, ◌==◌, ◌||◌, ◌*◌, any, ◌&&◌, not,
}
use expense_saas.Hooks.{
  Query, pending_reports, payable_reports, processed_reports, dashboard, current_user, tenant,
  tenant_members, categories, QueryKey, query_key,
}
use expense_saas.Hooks.Changes.Mutations.{
  KeyFilter, Mutation, ApproveReportInput, CreateItemInput, CreateReportInput,
  DeleteAttachmentParams, DeleteItemInput, RejectReportInput, SubmitReportInput, UpdateItemInput,
  UpdateReportInput, UploadAttachmentParams, use_create_report, use_update_report,
  use_submit_report, use_delete_report, use_approve_report, use_reject_report, use_mark_as_paid,
  use_create_item, use_update_item, use_delete_item, use_upload_attachment, use_delete_attachment,
}

-- A mutation that has succeeded, with its input.
pub data Change : Type 0 where
  create_report : CreateReportInput → Change
  update_report : UpdateReportInput → Change
  submit_report : SubmitReportInput → Change
  delete_report : (report_id : String) → Change
  approve_report : ApproveReportInput → Change
  reject_report : RejectReportInput → Change
  mark_as_paid : SubmitReportInput → Change
  create_item : CreateItemInput → Change
  update_item : UpdateItemInput → Change
  delete_item : DeleteItemInput → Change
  upload_attachment : UploadAttachmentParams → Change
  delete_attachment : DeleteAttachmentParams → Change

-- The hook of a change.
unfoldable pub mutation : Change → Mutation
unfolding use_create_report use_update_report use_submit_report use_delete_report use_approve_report
    use_reject_report use_mark_as_paid use_create_item use_update_item use_delete_item
    use_upload_attachment use_delete_attachment
mutation (create_report input) = use_create_report input
mutation (update_report input) = use_update_report input
mutation (submit_report input) = use_submit_report input
mutation (delete_report input) = use_delete_report input
mutation (approve_report input) = use_approve_report input
mutation (reject_report input) = use_reject_report input
mutation (mark_as_paid input) = use_mark_as_paid input
mutation (create_item input) = use_create_item input
mutation (update_item input) = use_update_item input
mutation (delete_item input) = use_delete_item input
mutation (upload_attachment input) = use_upload_attachment input
mutation (delete_attachment input) = use_delete_attachment input

abbrev pub invalidated : Change → List KeyFilter
invalidated c = (mutation c).invalidates

-- `staleTime` in milliseconds; `none` is `Infinity`, and the client's default is 0.
unfoldable pub stale_time : Query → Option ℕ
stale_time (pending_reports _) = some (30 * 1000)
stale_time (payable_reports _) = some (30 * 1000)
stale_time (processed_reports _) = some (30 * 1000)
stale_time dashboard = some (60 * 1000)
stale_time current_user = some (5 * 60 * 1000)
stale_time tenant = some (5 * 60 * 1000)
stale_time tenant_members = some (60 * 1000)
stale_time categories = none
stale_time _ = some 0

abbrev is_at_once : Option ℕ → Bool
is_at_once none = false
is_at_once (some n) = n == 0

-- Whether a screen that uses the query asks the server after the change, however fresh the answer
-- it has: the key is invalidated, or the screen is opened only later and answers are never fresh. A
-- screen that is there while the change is made asks again for an invalidated key only.
unfoldable pub is_renewed :
    (matches : KeyFilter → QueryKey → Bool) → (is_mounted : Bool) → Change → Query → Bool
unfolding mutation stale_time query_key
is_renewed matches is_mounted c q =
    any (λ filter. matches filter (query_key q)) (invalidated c)
    || (not is_mounted && is_at_once (stale_time q))
