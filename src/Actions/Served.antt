-- ===== src/Actions/Served.antt =====
-- pages/reports/ReportActionBar.tsx against the server: the buttons are those whose requests are
-- accepted.
use expense_saas.Prelude.{
  ℕ, Option, none, some, Bool, true, false, List, ◌≡◌, ◌≢◌, ◌≤◌, arith, eq_iff, map, length,
}
use expense_saas.Types.{Role, ReportStatus, draft}
use expense_saas.Actions.{
  Action, edit, resubmit, Pending, Button, report_action_bar, workflow_actions, owns, offers,
  can_edit_items,
}
use expense_saas.Workflow.{
  ExpenseReport, Context, Actor, Command, submit_report, delete_report, approve_report,
  reject_report, pay_report, is_blank, Result, ok, err, serve,
}

abbrev pub is_accepted : Result → Bool
is_accepted (ok _) = true
is_accepted (err _) = false

-- The buttons that the user sees on a report as the server has it.
abbrev pub bar : Context → Actor → ExpenseReport → Option Pending → List Button
bar c a r pending =
    report_action_bar r.status (owns (some a.id) r.user_id) (some a.role) (length c.amounts) pending

-- The button behind each command.
abbrev pub button_of : Command → Action
button_of (submit_report _) = Action.submit
button_of delete_report = Action.delete
button_of (approve_report _ _) = Action.approve
button_of (reject_report _ _) = Action.reject
button_of (pay_report _) = Action.pay

-- The client has seen the last version of the report, and a reason is not blank and within the limit
-- of its field, `maxLength` of ReportDetailPage.
abbrev pub IsCurrent : Command → ExpenseReport → Type 0
IsCurrent (submit_report seen) r = seen ≡ r.updated_at
IsCurrent delete_report r = Unit {0}
IsCurrent (approve_report _ seen) r = seen ≡ r.updated_at
IsCurrent (reject_report reason seen) r =
    (seen ≡ r.updated_at) × (is_blank reason ≡ false) × (length reason ≤ 1000)
IsCurrent (pay_report seen) r = seen ≡ r.updated_at

-- With nothing under way, the button of a command can be pressed exactly if the server accepts the
-- command: where the report is not deleted, the client has seen its last version, the tenant has an
-- approver, and a reason for a rejection is not blank and has at most 1000 characters.
pub offers-bar :
    (c : Context) (a : Actor) (command : Command) (r : ExpenseReport)
    → r.deleted ≡ false
    → c.has_approver ≡ true
    → IsCurrent command r
    → offers (button_of command) (bar c a r none) ≡ is_accepted (serve c a command r)
unfolding offers report_action_bar serve
offers-bar c a (submit_report seen) r d h k = ground (arith, eq_iff a.id r.user_id)
offers-bar c a delete_report r d h k = ground (arith, eq_iff a.id r.user_id)
offers-bar c a (approve_report comment seen) r d h k = ground (arith, eq_iff a.id r.user_id)
offers-bar c a (reject_report reason seen) r d h k = ground (arith, eq_iff a.id r.user_id)
offers-bar c a (pay_report seen) r d h k = ground (arith, eq_iff a.id r.user_id)

-- While an operation is under way no button but the one for a new application can be pressed.
pub offers-bar_busy :
    (status : ReportStatus) (is_owner : Bool) (role : Option Role) (item_count : ℕ) (p : Pending)
    (action : Action)
    → action ≢ resubmit
    → offers action (report_action_bar status is_owner role item_count (some p)) ≡ false
unfolding offers report_action_bar
offers-bar_busy draft is_owner role n p action h = ground arith
offers-bar_busy _ is_owner role n p action h = ground arith

-- A button as the user can use it: what it does, and whether it can be pressed.
abbrev pub usable : Button → Action × Bool
usable b = (b.action, b.disabled)

-- To a user who does not own the report, the bar has the buttons of WorkflowActions, which the page
-- does not use.
report_action_bar-workflow_actions :
    (status : ReportStatus) (role : Role) (item_count : ℕ) (pending : Option Pending)
    → map usable (report_action_bar status false (some role) item_count pending)
      ≡ map usable (workflow_actions status role false pending)
unfolding report_action_bar workflow_actions
report_action_bar-workflow_actions draft role n pending = ground arith
report_action_bar-workflow_actions _ role n pending = ground arith

-- The items of a report can be changed exactly by whoever sees its edit and delete buttons.
pub can_edit_items-offers :
    (status : ReportStatus) (is_owner : Bool) (role : Option Role) (item_count : ℕ)
    → let buttons = report_action_bar status is_owner role item_count none in
      (can_edit_items status is_owner ≡ offers edit buttons)
      × (can_edit_items status is_owner ≡ offers Action.delete buttons)
unfolding can_edit_items offers report_action_bar
can_edit_items-offers draft is_owner role n = ground arith
can_edit_items-offers _ is_owner role n = ground arith
