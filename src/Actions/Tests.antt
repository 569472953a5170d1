-- ===== src/Actions/Tests.antt =====
-- The buttons of a report at concrete values.
use expense_saas.Prelude.{ℕ, none, true, [], ◌∷◌, ◌≡◌, ◌≤◌, length, refl, arith}
use expense_saas.Types.{approver, submitted}
use expense_saas.Workflow.{
  ExpenseReport, Context, Actor, reject_report, new_report, serve, is_space,
}
use expense_saas.Actions.{Action, report_action_bar, offers}
use expense_saas.Actions.Served.{is_accepted, bar, offers-bar}

abbrev bob : Actor
bob = record { id = "bob"; role = approver }

abbrev context : Context
context = record { amounts = 1200 ∷ 80 ∷ []; has_approver = true; now = 5 }

abbrev report : ExpenseReport
report = record (new_report "ann" 1) { status = submitted }

bob_may_reject : offers Action.reject (bar context bob report none) ≡ true
unfolding offers report_action_bar new_report
bob_may_reject = refl

is_short : length {A = ℕ} (0x3042 ∷ []) ≤ 1000
is_short = omega arith

offers-bar_example :
    offers Action.reject (bar context bob report none)
    ≡ is_accepted (serve context bob (reject_report (0x3042 ∷ []) 1) report)
unfolding new_report is_space
offers-bar_example =
    offers-bar context bob (reject_report (0x3042 ∷ []) 1) report refl refl (refl, refl, is_short)
