-- ===== src/ReportPage.antt =====
-- frontend/src/pages/reports/ReportDetailPage.tsx: the state of the page, its operations on the
-- report and its confirmation dialogs. The requests are sent with react-query; a request ends with
-- an outcome, which runs its onSuccess or its onError.
pub mod Items
pub mod Reachable
pub mod Invariant
pub mod Requests
pub mod Answers
mod Tests
use expense_saas.Prelude.{
  ℕ, String, Option, none, some, Bool, true, false, List, [], ◌∷◌, ◌==◌, ◌||◌, ◌&&◌, truthy,
  if◌then◌else◌,
}
use expense_saas.Types.{Role, ReportStatus, Severity, success, error, warning}
use expense_saas.Actions.{Action, Pending}

pub data DialogAction : Type 0 where
  submit delete : DialogAction

pub data WorkflowAction : Type 0 where
  approve reject pay : WorkflowAction

pub data PanelState : Type 0 where
  closed add edit view : PanelState

pub record Toast : Type 0 where
  pub severity : Severity
  pub message : String

-- The `isPending` of the mutations of the page.
pub record Mutations : Type 0 where
  pub submit : Bool
  pub delete : Bool
  pub approve : Bool
  pub reject : Bool
  pub pay : Bool
  pub delete_item : Bool
  pub update_item : Bool

pub record Page : Type 0 where
  pub dialog_action : Option DialogAction
  pub workflow_pending_action : Option WorkflowAction
  pub workflow_dialog_action : Option WorkflowAction
  pub reject_dialog_api_error : Option String
  pub conflict_detected : Bool
  pub deleting_item_id : Option String
  pub panel_state : PanelState
  pub last_mode : PanelState
  pub selected_item : Option String
  pub item_api_error : Option String
  pub form_key : ℕ
  -- the toast on the screen
  pub toast : Option Toast
  pub pending : Mutations

-- What a request is answered with: an ApiClientError, another Error, or a value that is none.
pub data Failure : Type 0 where
  api_error : (status : ℕ) (message : String) → Failure
  other_error : (message : String) → Failure
  unknown : Failure

-- What the page asks for, of the server and of the router.
pub data Request : Type 0 where
  submit_report delete_report : Request
  approve_report : (comment : Option (List ℕ)) → Request
  reject_report : (reason : List ℕ) → Request
  pay_report : Request
  delete_item update_item : (id : String) → Request
  go_to_edit go_to_new go_to_list : Request

-- `err instanceof Error ? err.message : fallback`
abbrev pub message_of : String → Failure → String
message_of fallback (api_error status message) = message
message_of fallback (other_error message) = message
message_of fallback unknown = fallback

abbrev pub toast_of : Severity → String → Option Toast
toast_of severity message = some (record { severity = severity; message = message })

abbrev or_text : String → String → String
or_text a b = if truthy a then a else b

-- handleActionError
unfoldable pub handle_action_error : Failure → (fallback : String) → Page → Page
handle_action_error (api_error status message) fallback p =
    if status == 409
    then record p {
      conflict_detected = true;
      toast = toast_of warning (or_text message "他のユーザーがこのレポートを更新しました。ページを再読み込みしてください。");
    }
    else record p { toast = toast_of error (or_text message fallback) }
handle_action_error (other_error message) fallback p = record p { toast = toast_of error message }
handle_action_error unknown fallback p = record p {
  toast = toast_of error (or_text fallback "サーバーとの通信に失敗しました。しばらくしてから再度お試しください。");
}

-- The effect on a toast in `location.state`, and `onClose` of the toast.
unfoldable pub take_state_toast : Toast → Page → Page
take_state_toast t p = record p { toast = some t }

unfoldable pub close_toast : Page → Page
close_toast p = record p { toast = none }

-- handleSubmitConfirm and handleDeleteConfirm, with what their requests run when they end.
unfoldable pub handle_dialog_confirm : Page → Page × List Request
handle_dialog_confirm p = elim p.dialog_action [
  | none ↦ (p, [])
  | some DialogAction.submit ↦
      (record p { pending = record p.pending { submit = true } }, submit_report ∷ [])
  | some DialogAction.delete ↦
      (record p { pending = record p.pending { delete = true } }, delete_report ∷ [])
]

unfoldable pub submit_ends : Option Failure → Page → Page
unfolding handle_action_error
submit_ends none p = record p {
  dialog_action = none;
  toast = toast_of success "レポートを提出しました";
  pending = record p.pending { submit = false };
}
submit_ends (some e) p =
    handle_action_error e "提出に失敗しました"
      (record p { dialog_action = none; pending = record p.pending { submit = false } })

unfoldable pub delete_ends : Option Failure → Page → Page × List Request
unfolding handle_action_error
delete_ends none p = (record p { pending = record p.pending { delete = false } }, go_to_list ∷ [])
delete_ends (some e) p = (
  handle_action_error e "削除に失敗しました"
      (record p { dialog_action = none; pending = record p.pending { delete = false } }),
  [],
)

-- handleWorkflowDialogConfirm
unfoldable pub handle_workflow_dialog_confirm : Option (List ℕ) → Page → Page × List Request
handle_workflow_dialog_confirm input p = elim p.workflow_dialog_action [
  | none ↦ (p, [])
  | some WorkflowAction.approve ↦ (
    record p {
      workflow_dialog_action = none;
      workflow_pending_action = some WorkflowAction.approve;
      pending = record p.pending { approve = true };
    },
    approve_report input ∷ [],
  )
  | some WorkflowAction.reject ↦ (
    record p {
      workflow_pending_action = some WorkflowAction.reject;
      pending = record p.pending { reject = true };
    },
    reject_report (elim input [ none ↦ [] | some reason ↦ reason ]) ∷ [],
  )
  | some WorkflowAction.pay ↦ (
    record p {
      workflow_dialog_action = none;
      workflow_pending_action = some WorkflowAction.pay;
      pending = record p.pending { pay = true };
    },
    pay_report ∷ [],
  )
]

unfoldable pub approve_ends : Option Failure → Page → Page
approve_ends e p = record p {
  workflow_pending_action = none;
  pending = record p.pending { approve = false };
  toast = elim e [
    | none ↦ toast_of success "レポートを承認しました"
    | some f ↦ toast_of error (message_of "承認に失敗しました" f)
  ];
}

unfoldable pub reject_ends : Option Failure → Page → Page
reject_ends none p = record p {
  workflow_pending_action = none;
  workflow_dialog_action = none;
  reject_dialog_api_error = none;
  pending = record p.pending { reject = false };
  toast = toast_of success "レポートを却下しました";
}
reject_ends (some f) p = record p {
  workflow_pending_action = none;
  reject_dialog_api_error = some (message_of "却下に失敗しました" f);
  pending = record p.pending { reject = false };
}

unfoldable pub pay_ends : Option Failure → Page → Page
pay_ends e p = record p {
  workflow_pending_action = none;
  pending = record p.pending { pay = false };
  toast = elim e [
    | none ↦ toast_of success "支払完了を記録しました"
    | some f ↦ toast_of error (message_of "支払完了の記録に失敗しました" f)
  ];
}

-- handleWorkflowDialogCancel
unfoldable pub handle_workflow_dialog_cancel : Page → Page
handle_workflow_dialog_cancel p = record p {
  reject_dialog_api_error = none;
  workflow_dialog_action = none;
}

-- The report as the page has it.
pub record View : Type 0 where
  pub status : ReportStatus
  pub is_owner : Bool
  pub role : Option Role
  pub item_count : ℕ

abbrev pub as_pending : Option WorkflowAction → Option Pending
as_pending none = none
as_pending (some WorkflowAction.approve) = some Pending.approve
as_pending (some WorkflowAction.reject) = some Pending.reject
as_pending (some WorkflowAction.pay) = some Pending.pay

-- The handlers behind the buttons of ReportActionBar.
unfoldable pub handle_action : Action → Page → Page × List Request
handle_action Action.edit p = (p, go_to_edit ∷ [])
handle_action Action.resubmit p = (p, go_to_new ∷ [])
handle_action Action.submit p = (record p { dialog_action = some DialogAction.submit }, [])
handle_action Action.delete p = (record p { dialog_action = some DialogAction.delete }, [])
handle_action Action.approve p =
    (record p { workflow_dialog_action = some WorkflowAction.approve }, [])
handle_action Action.reject p = (
  record p { reject_dialog_api_error = none; workflow_dialog_action = some WorkflowAction.reject },
  [],
)
handle_action Action.pay p = (record p { workflow_dialog_action = some WorkflowAction.pay }, [])
