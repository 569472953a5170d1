-- ===== src/Workflow.antt =====
-- internal/domain/report.go, the life of a report on the server, behind the role check of the
-- router (internal/middleware/rbac.go), the length of a reason in internal/handler/workflow.go,
-- internal/service/authorizer.go and the services' check of `updated_at`. A request is served on a report that the repository finds and saves.
pub mod Invariant
mod Tests
use expense_saas.Prelude.{
  ℕ, String, Option, none, some, Bool, true, false, List, [], ◌∷◌, ◌==◌, ◌+◌, ◌||◌, ◌&&◌, not, leb,
  str_eq, if◌then◌else◌, all, length,
}
use expense_saas.Types.{
  Role, approver, accounting, ReportStatus, draft, submitted, approved, rejected, paid,
}

pub data Error : Type 0 where
  forbidden conflict invalid_state_transition empty_report_submission no_approver_in_tenant : Error
  self_approval_not_allowed self_payment_not_allowed missing_rejection_reason : Error
  report_not_deletable resource_not_found validation_error : Error

-- The fields that the transitions read or write. A reason is a list of code points.
pub record ExpenseReport : Type 0 where
  pub user_id : String
  pub status : ReportStatus
  pub total_amount : ℕ
  pub submitted_by : Option String
  pub approved_by : Option String
  pub approval_comment : Option (List ℕ)
  pub rejected_by : Option String
  pub rejection_reason : Option (List ℕ)
  pub paid_by : Option String
  pub updated_at : ℕ
  pub deleted : Bool

pub data Result : Type 0 where
  ok : ExpenseReport → Result
  err : Error → Result

infixl 5 ◌>>=◌
abbrev pub ◌>>=◌ : Result → (ExpenseReport → Result) → Result
ok r >>= f = f r
err e >>= f = err e

abbrev pub guard : Bool → Error → ExpenseReport → Result
guard true e r = ok r
guard false e r = err e

abbrev pub is_draft : ReportStatus → Bool
is_draft draft = true
is_draft _ = false

abbrev pub is_submitted : ReportStatus → Bool
is_submitted submitted = true
is_submitted _ = false

abbrev pub is_approved : ReportStatus → Bool
is_approved approved = true
is_approved _ = false

-- unicode.IsSpace
unfoldable pub is_space : ℕ → Bool
is_space c =
    (leb 9 c && leb c 13)
    || c == 32
    || c == 0x85
    || c == 0xa0
    || c == 0x1680
    || (leb 0x2000 c && leb c 0x200a)
    || c == 0x2028
    || c == 0x2029
    || c == 0x202f
    || c == 0x205f
    || c == 0x3000

-- `strings.TrimSpace(reason) == ""`
abbrev pub is_blank : List ℕ → Bool
is_blank reason = all is_space reason

sum : List ℕ → ℕ
sum [] = 0
sum (amount ∷ amounts) = amount + sum amounts

-- (*ExpenseReport).Submit, the items by their amounts
unfoldable pub submit :
    (actor : String) (amounts : List ℕ) (has_approver : Bool) → ExpenseReport → Result
unfolding sum
submit actor amounts has_approver r = do
  _ ← guard (is_draft r.status) invalid_state_transition r
  _ ← guard (elim amounts [ [] ↦ false | _ ∷ _ ↦ true ]) empty_report_submission r
  _ ← guard has_approver no_approver_in_tenant r
  ok (record r { status = submitted; submitted_by = some actor; total_amount = sum amounts })

-- (*ExpenseReport).Approve
unfoldable pub approve : (actor : String) (comment : Option (List ℕ)) → ExpenseReport → Result
approve actor comment r = do
  _ ← guard (is_submitted r.status) invalid_state_transition r
  _ ← guard (not (str_eq actor r.user_id)) self_approval_not_allowed r
  ok (record r { status = approved; approved_by = some actor; approval_comment = comment })

-- (*ExpenseReport).Reject
unfoldable pub reject : (actor : String) (reason : List ℕ) → ExpenseReport → Result
reject actor reason r = do
  _ ← guard (is_submitted r.status) invalid_state_transition r
  _ ← guard (not (str_eq actor r.user_id)) self_approval_not_allowed r
  _ ← guard (not (is_blank reason)) missing_rejection_reason r
  ok (record r { status = rejected; rejected_by = some actor; rejection_reason = some reason })

-- (*ExpenseReport).MarkAsPaid
unfoldable pub mark_as_paid : (actor : String) → ExpenseReport → Result
mark_as_paid actor r = do
  _ ← guard (is_approved r.status) invalid_state_transition r
  _ ← guard (not (str_eq actor r.user_id)) self_payment_not_allowed r
  ok (record r { status = paid; paid_by = some actor })

-- (*ExpenseReport).Delete
unfoldable pub delete : ExpenseReport → Result
delete r = do _ ← guard (is_draft r.status) report_not_deletable r; ok (record r { deleted = true })

pub record Actor : Type 0 where
  pub id : String
  pub role : Role

-- RequireRole: the role is one of those listed for the route.
abbrev pub is_approver : Role → Bool
is_approver approver = true
is_approver _ = false

abbrev pub is_accounting : Role → Bool
is_accounting accounting = true
is_accounting _ = false

-- What a client may ask of the server about one report, with the `updated_at` that it last saw.
pub data Command : Type 0 where
  submit_report : (updated_at : ℕ) → Command
  delete_report : Command
  approve_report : (comment : Option (List ℕ)) (updated_at : ℕ) → Command
  reject_report : (reason : List ℕ) (updated_at : ℕ) → Command
  pay_report : (updated_at : ℕ) → Command

-- UpdateReportStatus and SoftDeleteReport: the database sets `updated_at`, and keeps the amount that
-- the items have given to the report.
abbrev pub save : (now : ℕ) (found saved : ExpenseReport) → Result
save now found saved = ok (record saved { updated_at = now; total_amount = found.total_amount })

-- What the other repositories and the clock answer while a command is served.
pub record Context : Type 0 where
  pub amounts : List ℕ  -- of the report's items
  pub has_approver : Bool
  pub now : ℕ

-- RequireRole of the route: cmd/server/main.go
abbrev is_allowed : Role → Command → Bool
is_allowed role (approve_report _ _) = is_approver role
is_allowed role (reject_report _ _) = is_approver role
is_allowed role (pay_report _) = is_accounting role
is_allowed role _ = true

-- What the handler checks of a request: a reason has at most 1000 code points.
abbrev is_valid : Command → Bool
is_valid (reject_report reason _) = leb (length reason) 1000
is_valid _ = true

-- SubmitReport and DeleteReport of report_service.go, ApproveReport, RejectReport and
-- MarkReportAsPaid of workflow_service.go.
perform : Context → Actor → Command → ExpenseReport → Result
unfolding submit approve reject mark_as_paid delete
perform c a (submit_report seen) r = do
  _ ← guard (str_eq a.id r.user_id) forbidden r
  _ ← guard (r.updated_at == seen) conflict r
  submit a.id c.amounts c.has_approver r
perform c a delete_report r = do _ ← guard (str_eq a.id r.user_id) forbidden r; delete r
perform c a (approve_report comment seen) r = do
  _ ← guard (not (str_eq a.id r.user_id)) self_approval_not_allowed r
  _ ← guard (r.updated_at == seen) conflict r
  approve a.id comment r
perform c a (reject_report reason seen) r = do
  _ ← guard (not (str_eq a.id r.user_id)) self_approval_not_allowed r
  _ ← guard (r.updated_at == seen) conflict r
  reject a.id reason r
perform c a (pay_report seen) r = do
  _ ← guard (not (str_eq a.id r.user_id)) self_payment_not_allowed r
  _ ← guard (r.updated_at == seen) conflict r
  mark_as_paid a.id r

-- A request on its way through the route, the handler and the service; the repository finds no
-- deleted report.
unfoldable pub serve : Context → Actor → Command → ExpenseReport → Result
unfolding perform
serve c a command r = do
  _ ← guard (is_allowed a.role command) forbidden r
  _ ← guard (is_valid command) validation_error r
  _ ← guard (not r.deleted) resource_not_found r
  r' ← perform c a command r
  save c.now r r'

-- The report after a request: a refusal saves nothing.
unfoldable pub step : Context × Actor × Command → ExpenseReport → ExpenseReport
unfolding serve
step (c, a, command) r = elim (serve c a command r) [ ok r' ↦ r' | err _ ↦ r ]

unfoldable pub run : List (Context × Actor × Command) → ExpenseReport → ExpenseReport
unfolding step
run [] r = r
run (request ∷ requests) r = run requests (step request r)

-- CreateReport: a draft of its creator.
unfoldable pub new_report : (user_id : String) (now : ℕ) → ExpenseReport
new_report user_id now = record {
  user_id = user_id;
  status = draft;
  total_amount = 0;
  submitted_by = none;
  approved_by = none;
  approval_comment = none;
  rejected_by = none;
  rejection_reason = none;
  paid_by = none;
  updated_at = now;
  deleted = false;
}
