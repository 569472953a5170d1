-- ===== src/ReportPage/Requests.antt =====
-- ReportDetailPage.tsx: when requests go out, and what their answers show.
use expense_saas.Prelude.{ℕ, Option, Bool, true, false, List, ◌&&◌, not, ◌≡◌, refl, arith, all}
use expense_saas.Actions.{Action, offers, report_action_bar}
use expense_saas.ReportPage.{
  Page, Mutations, Failure, Request, submit_report, delete_report, approve_report, reject_report,
  pay_report, delete_item, update_item, as_pending, handle_action, handle_dialog_confirm,
  delete_ends, handle_workflow_dialog_confirm,
}
use expense_saas.ReportPage.Items.{handle_delete_item_confirm, handle_item_submit, is_open}
use expense_saas.ReportPage.Reachable.{
  Event, press, confirm_dialog, confirm_workflow, delete_answer, confirm_delete_item, save_item,
  step, is_covered, when, is_some, dialog_loading, workflow_loading, passes, argument,
}

-- A request of this kind is under way.
abbrev pub is_under_way : Mutations → Request → Bool
is_under_way m submit_report = m.submit
is_under_way m delete_report = m.delete
is_under_way m (approve_report _) = m.approve
is_under_way m (reject_report _) = m.reject
is_under_way m pay_report = m.pay
is_under_way m (delete_item _) = m.delete_item
is_under_way m (update_item _) = m.update_item
is_under_way m _ = false

abbrev pub is_new_in : Mutations → Request → Bool
is_new_in m r = not (is_under_way m r)

when-requests :
    (b : Bool) (next : Page × List Request) (p : Page)
    → (b ≡ true → all (is_new_in p.pending) next.1 ≡ true)
    → all (is_new_in p.pending) (when b next p).1 ≡ true
when-requests true next p f = f refl
when-requests false next p f = refl

handle_action-requests :
    (a : Action) (p : Page) → all (is_new_in p.pending) (handle_action a p).1 ≡ true
unfolding handle_action
handle_action-requests a p = ground arith

handle_dialog_confirm-requests :
    (p : Page)
    → (is_some p.dialog_action && not (dialog_loading p)) ≡ true
    → all (is_new_in p.pending) (handle_dialog_confirm p).1 ≡ true
unfolding handle_dialog_confirm
handle_dialog_confirm-requests p g = ground arith

handle_workflow_dialog_confirm-requests :
    (input : Option (List ℕ)) (p : Page)
    → (is_some p.workflow_dialog_action && not (workflow_loading p)) ≡ true
    → all (is_new_in p.pending) (handle_workflow_dialog_confirm input p).1 ≡ true
unfolding handle_workflow_dialog_confirm
handle_workflow_dialog_confirm-requests input p g = ground arith

handle_delete_item_confirm-requests :
    (p : Page)
    → (is_some p.deleting_item_id && not p.pending.delete_item) ≡ true
    → all (is_new_in p.pending) (handle_delete_item_confirm p).1 ≡ true
unfolding handle_delete_item_confirm
handle_delete_item_confirm-requests p g = ground arith

handle_item_submit-requests :
    (p : Page)
    → (is_open p.panel_state && not p.pending.update_item) ≡ true
    → all (is_new_in p.pending) (handle_item_submit p).1 ≡ true
unfolding handle_item_submit
handle_item_submit-requests p g = ground arith

delete_ends-requests :
    (e : Option Failure) (p : Page) → all (is_new_in p.pending) (delete_ends e p).1 ≡ true
unfolding delete_ends
delete_ends-requests e p = ground arith

-- No event sends a request while one of its kind is under way: a button pressed twice sends it once.
pub step-requests : (e : Event) (p : Page) → all (is_new_in p.pending) (step e p).1 ≡ true
unfolding step
step-requests (press v a) p =
    when-requests
      (not (is_covered p)
        && offers a (
            report_action_bar v.status v.is_owner v.role v.item_count
              (as_pending p.workflow_pending_action)))
      (handle_action a p) p (λ g. handle_action-requests a p)
step-requests confirm_dialog p =
    when-requests (is_some p.dialog_action && not (dialog_loading p)) (handle_dialog_confirm p) p
      (handle_dialog_confirm-requests p)
step-requests (confirm_workflow input) p =
    let a = p.workflow_dialog_action in
    when-requests (is_some a && not (workflow_loading p) && passes a input)
      (handle_workflow_dialog_confirm (argument a input) p) p
      (λ g. handle_workflow_dialog_confirm-requests (argument a input) p (ground (arith, g)))
step-requests confirm_delete_item p =
    when-requests (is_some p.deleting_item_id && not p.pending.delete_item)
      (handle_delete_item_confirm p) p (handle_delete_item_confirm-requests p)
step-requests save_item p =
    when-requests (is_open p.panel_state && not p.pending.update_item) (handle_item_submit p) p
      (handle_item_submit-requests p)
step-requests (delete_answer e) p =
    when-requests p.pending.delete (delete_ends e p) p (λ g. delete_ends-requests e p)
step-requests _ p = ground arith
