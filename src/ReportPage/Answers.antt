-- ===== src/ReportPage/Answers.antt =====
-- ReportDetailPage.tsx: what the answers of the server show on the page.
use expense_saas.Prelude.{
  Option, none, some, Bool, true, false, List, ◌==◌, ◌||◌, ◌&&◌, not, ◌≡◌, refl, arith, Bool-cases,
  inl, inr,
}
use expense_saas.Actions.{Action, offers, report_action_bar}
use expense_saas.ReportPage.{
  WorkflowAction, Page, Failure, api_error, as_pending, message_of, handle_action,
  handle_action_error, handle_dialog_confirm, submit_ends, delete_ends,
  handle_workflow_dialog_confirm, approve_ends, reject_ends, pay_ends,
  handle_workflow_dialog_cancel, take_state_toast, close_toast,
}
use expense_saas.ReportPage.Items.{
  handle_add_item, handle_item_click, handle_edit_item, handle_delete_item,
  handle_delete_item_confirm, delete_item_ends, handle_delete_item_cancel, handle_item_submit,
  update_item_ends, close_panel, save_and_continue, transition_exited, is_open, mode_prop,
}
use expense_saas.ReportPage.Reachable.{
  Event, press, confirm_workflow, submit_answer, delete_answer, reject_answer, update_item_answer,
  panel_closes, step, run, new_page, is_covered,
}
use expense_saas.ReportPage.Invariant.Steps.{run-new_page-IsSound}

abbrev is_conflict : Option Failure → Bool
is_conflict (some (api_error status _)) = status == 409
is_conflict _ = false

-- The event is an answer 409 to a submission or a deletion that is under way.
abbrev pub is_conflict_answer : Event → Page → Bool
is_conflict_answer (submit_answer e) p = p.pending.submit && is_conflict e
is_conflict_answer (delete_answer e) p = p.pending.delete && is_conflict e
is_conflict_answer _ p = false

action_keeps :
    (a : Action) (p : Page) → (handle_action a p).0.conflict_detected ≡ p.conflict_detected || false
unfolding handle_action
action_keeps a p = ground arith

-- The banner that asks for a reload comes with an answer 409 to a submission or to a deletion, and
-- with no other event, not even with an answer 409 to an approval, a rejection or a payment; it does
-- not go away again.
pub step-conflict_detected :
    (e : Event) (p : Page)
    → (step e p).0.conflict_detected ≡ p.conflict_detected || is_conflict_answer e p
unfolding step handle_action handle_dialog_confirm submit_ends delete_ends handle_action_error
    handle_workflow_dialog_confirm approve_ends reject_ends pay_ends handle_workflow_dialog_cancel
    handle_add_item handle_item_click handle_edit_item handle_delete_item handle_delete_item_confirm
    delete_item_ends handle_delete_item_cancel handle_item_submit update_item_ends close_panel
    save_and_continue transition_exited take_state_toast close_toast
step-conflict_detected (press v a) p =
    elim (Bool-cases (
      not (is_covered p)
      && offers a (
          report_action_bar v.status v.is_owner v.role v.item_count
            (as_pending p.workflow_pending_action)))) [
              | inl g ↦ rw g (action_keeps a p)
              | inr g ↦ rw g (ground arith)
            ]
step-conflict_detected (confirm_workflow input) p = ground arith
step-conflict_detected _ p = ground arith

-- A rejection that the server refuses leaves its dialog open, with the message of the error in it,
-- and nothing under way; the toast on the screen does not change.
reject_answer-refused :
    (es : List Event) (f : Failure)
    → let p = (run es new_page).0 in
      p.pending.reject ≡ true
      → let q = (step (reject_answer (some f)) p).0 in
        (q.workflow_dialog_action ≡ some WorkflowAction.reject)
        × (q.reject_dialog_api_error ≡ some (message_of "却下に失敗しました" f))
        × (q.workflow_pending_action ≡ none)
        × (q.pending.reject ≡ false)
        × (q.toast ≡ p.toast)
unfolding step reject_ends
reject_answer-refused es f h =
    let s = run-new_page-IsSound es in rw h (s.reject h, refl, refl, refl, refl)

-- While a panel that was open slides out, its `mode` property stays what it was, so what it shows
-- does not change; the same holds when a changed item is saved.
panel_closes-mode :
    (es : List Event)
    → let p = (run es new_page).0 in
      is_open p.panel_state ≡ true
      → (mode_prop (step panel_closes p).0 ≡ mode_prop p)
        × (mode_prop (step (update_item_answer none) p).0 ≡ mode_prop p)
unfolding step close_panel update_item_ends
panel_closes-mode es h = let s = run-new_page-IsSound es in ground (arith, s.mode h)
