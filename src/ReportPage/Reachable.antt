-- ===== src/ReportPage/Reachable.antt =====
-- ReportDetailPage.tsx: the events that reach the page. A dialog and the panel cover the page, so
-- its buttons can be pressed only while none of them is open; a dialog that is busy takes no answer.
use expense_saas.Prelude.{
  ℕ, String, Option, none, some, Bool, true, false, List, [], ◌∷◌, ◌++◌, ◌||◌, ◌&&◌, not,
}
use expense_saas.Actions.{Action, offers, report_action_bar}
use expense_saas.ConfirmDialog.{is_blank}
use expense_saas.ReportPage.{
  DialogAction, WorkflowAction, closed, add, Page, Mutations, Failure, Request, View, as_pending,
  handle_action, handle_dialog_confirm, submit_ends, delete_ends, handle_workflow_dialog_confirm,
  approve_ends, reject_ends, pay_ends, handle_workflow_dialog_cancel, Toast, take_state_toast,
  close_toast,
}
use expense_saas.ReportPage.Items.{
  handle_add_item, handle_item_click, handle_edit_item, handle_delete_item,
  handle_delete_item_confirm, delete_item_ends, handle_delete_item_cancel, handle_item_submit,
  update_item_ends, close_panel, save_and_continue, transition_exited, is_open,
}

abbrev pub is_some {ℓ} : {A : Type ℓ} → Option A → Bool
is_some none = false
is_some (some _) = true

-- A dialog or the panel is open.
abbrev pub is_covered : Page → Bool
is_covered p =
    is_some p.dialog_action
    || is_some p.workflow_dialog_action
    || is_some p.deleting_item_id
    || is_open p.panel_state

-- The `loading` properties of the dialogs.
abbrev pub dialog_loading : Page → Bool
dialog_loading p = elim p.dialog_action [
  | some DialogAction.submit ↦ p.pending.submit
  | _ ↦ p.pending.delete
]

abbrev pub workflow_loading : Page → Bool
workflow_loading p = elim p.workflow_dialog_action [
  | some WorkflowAction.approve ↦ p.pending.approve
  | some WorkflowAction.reject ↦ p.pending.reject
  | _ ↦ p.pending.pay
]

-- What ConfirmDialog lets through: a reason that is required is not blank.
abbrev pub passes : Option WorkflowAction → List ℕ → Bool
passes (some WorkflowAction.reject) input = not (is_blank input)
passes _ input = true

-- `inputField` is given, so that onConfirm gets the text.
abbrev pub argument : Option WorkflowAction → List ℕ → Option (List ℕ)
argument (some WorkflowAction.approve) input = some input
argument (some WorkflowAction.reject) input = some input
argument _ input = none

pub data Event : Type 0 where
  press : (view : View) (action : Action) → Event
  confirm_dialog cancel_dialog : Event
  confirm_workflow : (input : List ℕ) → Event
  cancel_workflow : Event
  submit_answer delete_answer approve_answer reject_answer pay_answer : Option Failure → Event
  press_add : Event
  press_item press_edit_item : (item : Option String) → Event
  press_delete_item : (id : String) → Event
  confirm_delete_item cancel_delete_item : Event
  delete_item_answer : Option Failure → Event
  save_item : Event
  update_item_answer : Option Failure → Event
  panel_closes panel_continues panel_exited : Event
  state_toast_arrives : Toast → Event
  toast_closes : Event

abbrev pub when : Bool → Page × List Request → Page → Page × List Request
when true next p = next
when false next p = (p, [])

abbrev pub silent : Page → Page × List Request
silent p = (p, [])

-- An event that cannot happen changes nothing.
unfoldable pub step : Event → Page → Page × List Request
step (press v a) p =
    when
      (not (is_covered p)
        && offers a (
            report_action_bar v.status v.is_owner v.role v.item_count
              (as_pending p.workflow_pending_action)))
      (handle_action a p) p
step confirm_dialog p =
    when (is_some p.dialog_action && not (dialog_loading p)) (handle_dialog_confirm p) p
step cancel_dialog p =
    when (is_some p.dialog_action && not (dialog_loading p))
      (silent (record p { dialog_action = none })) p
step (confirm_workflow input) p =
    when
      (is_some p.workflow_dialog_action
        && not (workflow_loading p)
        && passes p.workflow_dialog_action input)
      (handle_workflow_dialog_confirm (argument p.workflow_dialog_action input) p) p
step cancel_workflow p =
    when (is_some p.workflow_dialog_action && not (workflow_loading p))
      (silent (handle_workflow_dialog_cancel p)) p
step (submit_answer e) p = when p.pending.submit (silent (submit_ends e p)) p
step (delete_answer e) p = when p.pending.delete (delete_ends e p) p
step (approve_answer e) p = when p.pending.approve (silent (approve_ends e p)) p
step (reject_answer e) p = when p.pending.reject (silent (reject_ends e p)) p
step (pay_answer e) p = when p.pending.pay (silent (pay_ends e p)) p
step press_add p = when (not (is_covered p)) (silent (handle_add_item p)) p
step (press_item item) p = when (not (is_covered p)) (silent (handle_item_click item p)) p
step (press_edit_item item) p = when (not (is_covered p)) (silent (handle_edit_item item p)) p
step (press_delete_item id) p = when (not (is_covered p)) (silent (handle_delete_item id p)) p
step confirm_delete_item p =
    when (is_some p.deleting_item_id && not p.pending.delete_item) (handle_delete_item_confirm p) p
step cancel_delete_item p =
    when (is_some p.deleting_item_id && not p.pending.delete_item)
      (silent (handle_delete_item_cancel p)) p
step (delete_item_answer e) p = when p.pending.delete_item (silent (delete_item_ends e p)) p
step save_item p =
    when (is_open p.panel_state && not p.pending.update_item) (handle_item_submit p) p
step (update_item_answer e) p = when p.pending.update_item (silent (update_item_ends e p)) p
step panel_closes p = when (is_open p.panel_state) (silent (close_panel p)) p
step panel_continues p = when (is_open p.panel_state) (silent (save_and_continue p)) p
step panel_exited p = silent (transition_exited p)
step (state_toast_arrives t) p = silent (take_state_toast t p)
step toast_closes p = silent (close_toast p)

unfoldable pub run : List Event → Page → Page × List Request
run [] p = (p, [])
run (e ∷ es) p = let now = step e p in let later = run es now.0 in (later.0, now.1 ++ later.1)

abbrev idle : Mutations
idle = record {
  submit = false;
  delete = false;
  approve = false;
  reject = false;
  pay = false;
  delete_item = false;
  update_item = false;
}

unfoldable pub new_page : Page
new_page = record {
  dialog_action = none;
  workflow_pending_action = none;
  workflow_dialog_action = none;
  reject_dialog_api_error = none;
  conflict_detected = false;
  deleting_item_id = none;
  panel_state = closed;
  last_mode = add;
  selected_item = none;
  item_api_error = none;
  form_key = 0;
  toast = none;
  pending = idle;
}
