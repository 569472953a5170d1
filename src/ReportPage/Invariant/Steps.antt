-- ===== src/ReportPage/Invariant/Steps.antt =====
-- ReportDetailPage.tsx: every event keeps the invariant.
use expense_saas.Prelude.{none, Bool, true, false, List, [], ◌∷◌, ◌&&◌, not, ◌≡◌, refl, arith}
use expense_saas.ReportPage.{
  Page, Request, handle_action, handle_dialog_confirm, submit_ends, delete_ends,
  handle_workflow_dialog_confirm, approve_ends, reject_ends, pay_ends,
  handle_workflow_dialog_cancel,
}
use expense_saas.ReportPage.Items.{
  handle_add_item, handle_item_click, handle_edit_item, handle_delete_item,
  handle_delete_item_confirm, delete_item_ends, handle_delete_item_cancel, handle_item_submit,
  update_item_ends, close_panel, save_and_continue, is_open,
}
use expense_saas.ReportPage.Reachable.{
  Event, press, confirm_dialog, cancel_dialog, confirm_workflow, cancel_workflow, submit_answer,
  delete_answer, approve_answer, reject_answer, pay_answer, press_add, press_item, press_edit_item,
  press_delete_item, confirm_delete_item, cancel_delete_item, delete_item_answer, save_item,
  update_item_answer, panel_closes, panel_continues, panel_exited, step, run, new_page, is_covered,
  when, is_some, dialog_loading, workflow_loading, passes, argument, silent, state_toast_arrives,
  toast_closes,
}
use expense_saas.ReportPage.Invariant.{IsSound}
use expense_saas.ReportPage.Invariant.Dialogs.{
  handle_dialog_confirm-IsSound, cancel_dialog-IsSound, handle_workflow_dialog_confirm-IsSound,
  handle_workflow_dialog_cancel-IsSound, submit_ends-IsSound, delete_ends-IsSound,
  approve_ends-IsSound, reject_ends-IsSound, pay_ends-IsSound,
}
use expense_saas.ReportPage.Invariant.Panel.{
  handle_add_item-IsSound, handle_item_click-IsSound, handle_edit_item-IsSound,
  handle_delete_item-IsSound, handle_delete_item_confirm-IsSound, handle_delete_item_cancel-IsSound,
  delete_item_ends-IsSound, handle_item_submit-IsSound, update_item_ends-IsSound,
  close_panel-IsSound, save_and_continue-IsSound, transition_exited-IsSound,
  take_state_toast-IsSound, close_toast-IsSound,
}
use expense_saas.ReportPage.Invariant.Bar.{bar, bar_open, handle_action-IsSound}

new_page-IsSound : IsSound new_page
unfolding new_page
new_page-IsSound = ground arith

when-IsSound :
    (b : Bool) (next : Page × List Request) (p : Page)
    → (b ≡ true → IsSound next.0)
    → IsSound p
    → IsSound (when b next p).0
when-IsSound true next p f h = f refl
when-IsSound false next p f h = h

and_left : (a b : Bool) → (a && b) ≡ true → a ≡ true
and_left a b h = ground (arith, h)

and_right : (a b : Bool) → (a && b) ≡ true → b ≡ true
and_right a b h = ground (arith, h)

pub step-IsSound : (e : Event) (p : Page) → IsSound p → IsSound (step e p).0
unfolding step
step-IsSound (press v a) p h =
    when-IsSound (not (is_covered p) && bar v p.workflow_pending_action a) (handle_action a p) p
      (λ g.
        handle_action-IsSound a p h
          (and_left (not (is_covered p)) (bar v p.workflow_pending_action a) g)
          (bar_open v a p.workflow_pending_action
            (and_right (not (is_covered p)) (bar v p.workflow_pending_action a) g)))
      h
step-IsSound confirm_dialog p h =
    when-IsSound (is_some p.dialog_action && not (dialog_loading p)) (handle_dialog_confirm p) p
      (handle_dialog_confirm-IsSound p h) h
step-IsSound cancel_dialog p h =
    when-IsSound (is_some p.dialog_action && not (dialog_loading p))
      (silent (record p { dialog_action = none })) p (cancel_dialog-IsSound p h) h
step-IsSound (confirm_workflow input) p h =
    let action = p.workflow_dialog_action in
    let ready = is_some action && not (workflow_loading p) && passes action input in
    when-IsSound ready (handle_workflow_dialog_confirm (argument action input) p) p
      (λ g. handle_workflow_dialog_confirm-IsSound (argument action input) p h (ground (arith, g)))
      h
step-IsSound cancel_workflow p h =
    when-IsSound (is_some p.workflow_dialog_action && not (workflow_loading p))
      (silent (handle_workflow_dialog_cancel p)) p (handle_workflow_dialog_cancel-IsSound p h) h
step-IsSound (submit_answer e) p h =
    when-IsSound p.pending.submit (silent (submit_ends e p)) p (submit_ends-IsSound e p h) h
step-IsSound (delete_answer e) p h =
    when-IsSound p.pending.delete (delete_ends e p) p (delete_ends-IsSound e p h) h
step-IsSound (approve_answer e) p h =
    when-IsSound p.pending.approve (silent (approve_ends e p)) p (approve_ends-IsSound e p h) h
step-IsSound (reject_answer e) p h =
    when-IsSound p.pending.reject (silent (reject_ends e p)) p (reject_ends-IsSound e p h) h
step-IsSound (pay_answer e) p h =
    when-IsSound p.pending.pay (silent (pay_ends e p)) p (pay_ends-IsSound e p h) h
step-IsSound press_add p h =
    when-IsSound (not (is_covered p)) (silent (handle_add_item p)) p (handle_add_item-IsSound p h) h
step-IsSound (press_item i) p h =
    when-IsSound (not (is_covered p)) (silent (handle_item_click i p)) p
      (handle_item_click-IsSound i p h) h
step-IsSound (press_edit_item i) p h =
    when-IsSound (not (is_covered p)) (silent (handle_edit_item i p)) p
      (handle_edit_item-IsSound i p h) h
step-IsSound (press_delete_item id) p h =
    when-IsSound (not (is_covered p)) (silent (handle_delete_item id p)) p
      (handle_delete_item-IsSound id p h) h
step-IsSound confirm_delete_item p h =
    when-IsSound (is_some p.deleting_item_id && not p.pending.delete_item)
      (handle_delete_item_confirm p) p (λ g. handle_delete_item_confirm-IsSound p h) h
step-IsSound cancel_delete_item p h =
    when-IsSound (is_some p.deleting_item_id && not p.pending.delete_item)
      (silent (handle_delete_item_cancel p)) p (λ g. handle_delete_item_cancel-IsSound p h) h
step-IsSound (delete_item_answer e) p h =
    when-IsSound p.pending.delete_item (silent (delete_item_ends e p)) p
      (λ g. delete_item_ends-IsSound e p h) h
step-IsSound save_item p h =
    when-IsSound (is_open p.panel_state && not p.pending.update_item) (handle_item_submit p) p
      (λ g. handle_item_submit-IsSound p h) h
step-IsSound (update_item_answer e) p h =
    when-IsSound p.pending.update_item (silent (update_item_ends e p)) p
      (λ g. update_item_ends-IsSound e p h) h
step-IsSound panel_closes p h =
    when-IsSound (is_open p.panel_state) (silent (close_panel p)) p (λ g. close_panel-IsSound p h) h
step-IsSound panel_continues p h =
    when-IsSound (is_open p.panel_state) (silent (save_and_continue p)) p
      (save_and_continue-IsSound p h) h
step-IsSound panel_exited p h = transition_exited-IsSound p h
step-IsSound (state_toast_arrives t) p h = take_state_toast-IsSound t p h
step-IsSound toast_closes p h = close_toast-IsSound p h

pub run-IsSound : (es : List Event) (p : Page) → IsSound p → IsSound (run es p).0
unfolding run
run-IsSound [] p h = h
run-IsSound (e ∷ es) p h = run-IsSound es (step e p).0 (step-IsSound e p h)

pub run-new_page-IsSound : (es : List Event) → IsSound (run es new_page).0
run-new_page-IsSound es = run-IsSound es new_page new_page-IsSound
