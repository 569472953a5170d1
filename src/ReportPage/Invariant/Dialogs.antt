-- ===== src/ReportPage/Invariant/Dialogs.antt =====
-- ReportDetailPage.tsx: the confirmation dialogs keep the invariant.
use expense_saas.Prelude.{ℕ, Option, none, true, List, ◌&&◌, not, ◌≡◌, arith}
use expense_saas.ReportPage.{
  Page, Failure, handle_action_error, handle_dialog_confirm, submit_ends, delete_ends,
  handle_workflow_dialog_confirm, approve_ends, reject_ends, pay_ends,
  handle_workflow_dialog_cancel,
}
use expense_saas.ReportPage.Reachable.{is_some, dialog_loading, workflow_loading}
use expense_saas.ReportPage.Invariant.{IsSound}

pub handle_dialog_confirm-IsSound :
    (p : Page)
    → IsSound p
    → (is_some p.dialog_action && not (dialog_loading p)) ≡ true
    → IsSound (handle_dialog_confirm p).0
unfolding handle_dialog_confirm
handle_dialog_confirm-IsSound p h g = ground arith

pub cancel_dialog-IsSound :
    (p : Page)
    → IsSound p
    → (is_some p.dialog_action && not (dialog_loading p)) ≡ true
    → IsSound (record p { dialog_action = none })
cancel_dialog-IsSound p h g = ground arith

pub handle_workflow_dialog_confirm-IsSound :
    (input : Option (List ℕ)) (p : Page)
    → IsSound p
    → (is_some p.workflow_dialog_action && not (workflow_loading p)) ≡ true
    → IsSound (handle_workflow_dialog_confirm input p).0
unfolding handle_workflow_dialog_confirm
handle_workflow_dialog_confirm-IsSound input p h g = ground arith

pub handle_workflow_dialog_cancel-IsSound :
    (p : Page)
    → IsSound p
    → (is_some p.workflow_dialog_action && not (workflow_loading p)) ≡ true
    → IsSound (handle_workflow_dialog_cancel p)
unfolding handle_workflow_dialog_cancel
handle_workflow_dialog_cancel-IsSound p h g = ground arith

pub submit_ends-IsSound :
    (e : Option Failure) (p : Page)
    → IsSound p
    → (p.pending.submit) ≡ true
    → IsSound (submit_ends e p)
unfolding submit_ends handle_action_error
submit_ends-IsSound e p h g = ground arith

pub delete_ends-IsSound :
    (e : Option Failure) (p : Page)
    → IsSound p
    → (p.pending.delete) ≡ true
    → IsSound (delete_ends e p).0
unfolding delete_ends handle_action_error
delete_ends-IsSound e p h g = ground arith

pub approve_ends-IsSound :
    (e : Option Failure) (p : Page)
    → IsSound p
    → (p.pending.approve) ≡ true
    → IsSound (approve_ends e p)
unfolding approve_ends
approve_ends-IsSound e p h g = ground arith

pub reject_ends-IsSound :
    (e : Option Failure) (p : Page)
    → IsSound p
    → (p.pending.reject) ≡ true
    → IsSound (reject_ends e p)
unfolding reject_ends
reject_ends-IsSound e p h g = ground arith

pub pay_ends-IsSound :
    (e : Option Failure) (p : Page) → IsSound p → (p.pending.pay) ≡ true → IsSound (pay_ends e p)
unfolding pay_ends
pay_ends-IsSound e p h g = ground arith
