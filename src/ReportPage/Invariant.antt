-- ===== src/ReportPage/Invariant.antt =====
-- ReportDetailPage.tsx: what holds of the page in every state that it reaches.
pub mod Dialogs
pub mod Panel
pub mod Bar
pub mod Steps
use expense_saas.Prelude.{
  ℕ, String, Option, none, some, Bool, true, false, ◌∷◌, ◌++◌, ◌||◌, ◌&&◌, ◌≡◌, ◌≢◌, ◌≤◌, ◌+◌, inl,
  inr,
}
use expense_saas.ReportPage.{DialogAction, WorkflowAction, Page}
use expense_saas.ReportPage.Items.{is_open}

abbrev bit : Bool → ℕ
bit true = 1
bit false = 0

abbrev bit_of {ℓ} : {A : Type ℓ} → Option A → ℕ
bit_of none = 0
bit_of (some _) = 1

-- How many dialogs and panels are open.
abbrev pub covers : Page → ℕ
covers p =
    bit_of p.dialog_action
    + bit_of p.workflow_dialog_action
    + bit_of p.deleting_item_id
    + bit (is_open p.panel_state)

-- How many operations on the report are under way.
abbrev pub operations : Page → ℕ
operations p =
    bit p.pending.submit
    + bit p.pending.delete
    + bit p.pending.approve
    + bit p.pending.reject
    + bit p.pending.pay

pub record IsSound (p : Page) : Type 0 where
  -- a dialog stays open while the request that it waits for is under way
  pub submit : p.pending.submit ≡ true → p.dialog_action ≡ some DialogAction.submit
  pub delete : p.pending.delete ≡ true → p.dialog_action ≡ some DialogAction.delete
  pub reject : p.pending.reject ≡ true → p.workflow_dialog_action ≡ some WorkflowAction.reject
  -- the operation that the bar is told of is the one that is under way
  pub told :
      p.workflow_pending_action ≡ none → operations p ≡ bit p.pending.submit + bit p.pending.delete
  pub approving :
      p.workflow_pending_action ≡ some WorkflowAction.approve
      → (p.pending.approve ≡ true) × (p.workflow_dialog_action ≡ none) × (p.dialog_action ≡ none)
  pub rejecting : p.workflow_pending_action ≡ some WorkflowAction.reject → (p.pending.reject ≡ true)
  pub paying :
      p.workflow_pending_action ≡ some WorkflowAction.pay
      → (p.pending.pay ≡ true) × (p.workflow_dialog_action ≡ none) × (p.dialog_action ≡ none)
  pub one_operation : operations p ≤ 1
  pub one_cover : covers p ≤ 1
  -- the error of a rejection is there only in its own dialog
  pub rejected :
      (m : String)
      → p.reject_dialog_api_error ≡ some m
      → p.workflow_dialog_action ≡ some WorkflowAction.reject
  -- an open panel shows the mode that it keeps while it slides out
  pub mode : is_open p.panel_state ≡ true → p.last_mode ≡ p.panel_state
