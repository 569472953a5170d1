-- ===== src/Workflow/Tests.antt =====
-- The life of one report.
use expense_saas.Prelude.{ℕ, none, some, true, List, [], ◌∷◌, ◌≡◌, refl}
use expense_saas.Types.{approver, accounting, member, paid}
use expense_saas.Workflow.{
  Context, Actor, Command, submit_report, approve_report, pay_report, new_report, run,
  ExpenseReport,
}
use expense_saas.Workflow.Invariant.{IsSound, run-new_report-IsSound}

abbrev context : ℕ → Context
context now = record { amounts = 1200 ∷ 80 ∷ []; has_approver = true; now = now }

abbrev ann : Actor
ann = record { id = "ann"; role = member }

abbrev bob : Actor
bob = record { id = "bob"; role = approver }

abbrev eve : Actor
eve = record { id = "eve"; role = accounting }

-- Ann submits, tries to approve her own report, Bob approves, and Eve pays.
abbrev life : List (Context × Actor × Command)
life =
    (context 2, ann, submit_report 1)
    ∷ (context 3, ann, approve_report none 2)
    ∷ (context 4, bob, approve_report none 2)
    ∷ (context 5, eve, pay_report 4)
    ∷ []

abbrev report : ExpenseReport
report = run life (new_report "ann" 1)

ends_paid :
    (report.status ≡ paid) × (report.approved_by ≡ some "bob") × (report.paid_by ≡ some "eve")
unfolding run new_report
ends_paid = (refl, refl, refl)

run-new_report-IsSound_example : IsSound report
run-new_report-IsSound_example = run-new_report-IsSound life "ann" 1
