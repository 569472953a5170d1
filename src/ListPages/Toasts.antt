-- ===== src/ListPages/Toasts.antt =====
-- The toasts of the list pages: that of an error and that of the page before on
-- frontend/src/pages/reports/ReportListPage.tsx, and that of an error on ApprovalListPage.tsx,
-- PaymentListPage.tsx and ProcessedReportsPage.tsx of frontend/src/pages/workflow.
use expense_saas.Prelude.{
  ℕ, String, Option, none, some, Bool, true, false, List, [], ◌∷◌, ◌==◌, if◌then◌else◌,
}
use expense_saas.Types.{Severity}

-- What a failed request throws: its status, if any, and its message where it is an Error.
pub record Failure : Type 0 where
  pub status : Option ℕ
  pub message : Option String

-- ReportListPage: the query, `toastOpen`, `navToast` while it is open, and the toast in the state of
-- the history entry.
pub record ReportList : Type 0 where
  pub failure : Option Failure
  pub toast_open : Bool
  pub nav_toast : Option (Severity × String)
  pub state_toast : Option (Severity × String)

abbrev message_of : Option String → String
message_of none = "データの取得に失敗しました"
message_of (some m) = m

-- The effect on the state of the history entry.
abbrev take_state_toast : Option (Severity × String) → ReportList → ReportList
take_state_toast none p = p
take_state_toast (some t) p = record p { nav_toast = some t; state_toast = none }

unfoldable pub open_report_list : (state_toast : Option (Severity × String)) → ReportList
open_report_list t =
    take_state_toast t
      (record { failure = none; toast_open = false; nav_toast = none; state_toast = t })

abbrev pub is_403 : Option ℕ → Bool
is_403 none = false
is_403 (some n) = n == 403

-- What happens on a list page; a query is without an error while it is loaded anew, too.
pub data Event : Type 0 where
  query_fails : Failure → Event
  query_has_no_error : Event
  close_error_toast close_nav_toast : Event

abbrev shown_of : Option Failure → (toast_open : Bool) → Option String
shown_of none o = none
shown_of (some f) o = if o then none else some (message_of f.message)

-- The message of the error toast that is on the screen.
unfoldable pub error_toast : ReportList → Option String
error_toast p = shown_of p.failure p.toast_open

abbrev is_shown : Option String → Bool
is_shown none = false
is_shown (some m) = true

-- A toast can be closed while it is on the screen.
unfoldable pub report_list_step : Event → ReportList → ReportList
unfolding error_toast
report_list_step (query_fails f) p = record p { failure = some f }
report_list_step query_has_no_error p = record p { failure = none }
report_list_step close_error_toast p =
    if is_shown (error_toast p) then record p { toast_open = true } else p
report_list_step close_nav_toast p = record p { nav_toast = none }

unfoldable pub report_list_run : List Event → ReportList → ReportList
unfolding report_list_step
report_list_run [] p = p
report_list_run (e ∷ es) p = report_list_run es (report_list_step e p)

-- A page of the workflow: `toastOpen`. Its toast has one message for every failure.
unfoldable pub workflow_step : Event → (toast_open : Bool) → Bool
workflow_step (query_fails f) o = if is_403 f.status then o else true
workflow_step query_has_no_error o = o
workflow_step close_error_toast o = false
workflow_step close_nav_toast o = o

unfoldable pub workflow_run : List Event → Bool → Bool
unfolding workflow_step
workflow_run [] o = o
workflow_run (e ∷ es) o = workflow_run es (workflow_step e o)

-- The message of the toast that is on the screen of a page of the workflow.
unfoldable pub workflow_toast : (toast_open : Bool) → Option String
workflow_toast o = if o then some "サーバーエラーが発生しました" else none

-- The user does not close the toast of an error; no request fails but with a 403.
abbrev pub is_not_close : Event → Bool
is_not_close close_error_toast = false
is_not_close _ = true

abbrev pub is_no_failure : Event → Bool
is_no_failure (query_fails f) = is_403 f.status
is_no_failure _ = true
