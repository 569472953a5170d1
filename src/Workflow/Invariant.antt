-- ===== src/Workflow/Invariant.antt =====
-- internal/domain/report.go: what holds of a report after any requests by anybody.
use expense_saas.Prelude.{
  ℕ, String, Option, none, some, true, false, List, [], ◌∷◌, ◌≡◌, ◌≢◌, ◌⊎◌, refl, arith, eq_iff,
}
use expense_saas.Types.{ReportStatus, draft, approved, rejected, paid}
use expense_saas.Workflow.{
  ExpenseReport, Context, Actor, Command, submit_report, delete_report, approve_report,
  reject_report, pay_report, is_blank, step, run, new_report,
}

abbrev pub IsSettled : ReportStatus → Type 0
IsSettled s = (s ≡ approved) ⊎ (s ≡ paid)

-- A reason that is missing is blank.
abbrev pub reason_of : Option (List ℕ) → List ℕ
reason_of none = []
reason_of (some reason) = reason

pub record IsSound (r : ExpenseReport) : Type 0 where
  -- nobody approves, rejects or pays a report of their own
  pub approver : r.approved_by ≢ some r.user_id
  pub rejecter : r.rejected_by ≢ some r.user_id
  pub payer : r.paid_by ≢ some r.user_id
  -- a report that has left draft was submitted by its owner, and one that is deleted has not
  pub submitter : r.status ≢ draft → r.submitted_by ≡ some r.user_id
  pub deleted : r.deleted ≡ true → r.status ≡ draft
  -- what is approved or paid has an approver, what is paid a payer
  pub approval : IsSettled r.status → r.approved_by ≢ none
  pub payment : r.status ≡ paid → r.paid_by ≢ none
  -- what is rejected has a reason that is not blank
  pub rejection :
      r.status ≡ rejected
      → (r.rejected_by ≢ none) × (is_blank (reason_of r.rejection_reason) ≡ false)

new_report-IsSound : (user_id : String) (now : ℕ) → IsSound (new_report user_id now)
unfolding new_report
new_report-IsSound user_id now = record {
  approver = λ e. cc;
  rejecter = λ e. cc;
  payer = λ e. cc;
  submitter = λ e. ground arith;
  deleted = λ e. cc;
  approval = λ e. ground arith;
  payment = λ e. cc;
  rejection = λ e. cc;
}

step-IsSound :
    (c : Context) (a : Actor) (command : Command) (r : ExpenseReport)
    → IsSound r
    → IsSound (step (c, a, command) r)
unfolding step
step-IsSound c a (submit_report seen) r h = ground (arith, eq_iff a.id r.user_id)
step-IsSound c a delete_report r h = ground (arith, eq_iff a.id r.user_id)
step-IsSound c a (approve_report comment seen) r h = ground (arith, eq_iff a.id r.user_id)
step-IsSound c a (reject_report reason seen) r h = ground (arith, eq_iff a.id r.user_id)
step-IsSound c a (pay_report seen) r h = ground (arith, eq_iff a.id r.user_id)

run-IsSound :
    (requests : List (Context × Actor × Command)) (r : ExpenseReport)
    → IsSound r
    → IsSound (run requests r)
unfolding run
run-IsSound [] r h = h
run-IsSound ((c, a, command) ∷ requests) r h =
    run-IsSound requests (step (c, a, command) r) (step-IsSound c a command r h)

-- Whatever requests whoever makes, in any order, a report made by `user_id` keeps the separation of
-- duties and the evidence of its status: it is never approved, rejected or paid by its owner; once
-- past draft it was submitted by its owner, and it is not deleted; approved or paid it has an
-- approver, paid a payer, and rejected a reason that is not blank.
pub run-new_report-IsSound :
    (requests : List (Context × Actor × Command)) (user_id : String) (now : ℕ)
    → IsSound (run requests (new_report user_id now))
run-new_report-IsSound requests user_id now =
    run-IsSound requests _ (new_report-IsSound user_id now)

step_of_final :
    (c : Context) (a : Actor) (command : Command) (r : ExpenseReport)
    → ((r.status ≡ paid) ⊎ (r.status ≡ rejected) ⊎ (r.deleted ≡ true))
    → step (c, a, command) r ≡ r
unfolding step
step_of_final c a (submit_report seen) r h = ground arith
step_of_final c a delete_report r h = ground arith
step_of_final c a (approve_report comment seen) r h = ground arith
step_of_final c a (reject_report reason seen) r h = ground arith
step_of_final c a (pay_report seen) r h = ground arith

-- A report that is paid, rejected or deleted never changes again.
pub run_of_final :
    (requests : List (Context × Actor × Command)) (r : ExpenseReport)
    → ((r.status ≡ paid) ⊎ (r.status ≡ rejected) ⊎ (r.deleted ≡ true))
    → run requests r ≡ r
unfolding run
run_of_final [] r h = refl
run_of_final ((c, a, command) ∷ requests) r h =
    rw (step_of_final c a command r h) (run_of_final requests r h)
