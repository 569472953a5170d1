-- ===== src/ListPages/Workflow/Rows.antt =====
-- The rows of the tables of ApprovalListPage.tsx, PaymentListPage.tsx and ProcessedReportsPage.tsx.
use expense_saas.Prelude.{
  ℕ, String, Option, none, some, Bool, true, false, List, [], ◌∷◌, truthy, if◌then◌else◌,
}
use expense_saas.Types.{ReportStatus}

-- PendingReport, PayableReport and ProcessedReport of frontend/src/api/types.ts; a submitter is
-- shown by the name.
pub record PendingReport : Type 0 where
  pub id : String
  pub title : String
  pub total_amount : ℕ
  pub submitted_at : Option String
  pub submitter : Option String
  pub is_own_report : Bool

pub record PayableReport : Type 0 where
  pub id : String
  pub title : String
  pub total_amount : ℕ
  pub approved_at : Option String
  pub submitter : Option String
  pub is_own_report : Bool

pub data Decision : Type 0 where
  approval rejection : Decision

pub record ProcessedReport : Type 0 where
  pub id : String
  pub title : String
  pub total_amount : ℕ
  pub submitter : Option String
  pub decision : Decision
  pub decided_at : Option String
  pub current_status : ReportStatus

-- What a cell shows.
pub data Cell : Type 0 where
  plain : String → Cell
  -- a name, with the label 自分 beside it
  own : (name : String) → Cell
  yen : ℕ → Cell
  date : String → Cell
  badge : (label : String) (is_approval : Bool) → Cell
  chip : ReportStatus → Cell

pub record Row : Type 0 where
  pub id : String
  pub cells : List Cell

-- `report.submitter?.name ?? ''`
abbrev name_or_empty : Option String → String
name_or_empty none = ""
name_or_empty (some n) = n

-- SelfLabel beside a name
unfoldable pub name_cell : (name : String) (is_own_report : Bool) → Cell
name_cell n own_report = if own_report then own n else plain n

-- the formatter of the columns of a date
unfoldable pub date_cell : Option String → Cell
date_cell none = plain "-"
date_cell (some d) = if truthy d then date d else plain "-"

-- DecisionBadge
unfoldable pub decision_badge : Decision → Cell
decision_badge approval = badge "承認" true
decision_badge rejection = badge "却下" false

abbrev pub pending_columns : List String
pending_columns = "申請者名" ∷ "タイトル" ∷ "合計金額" ∷ "提出日" ∷ []

unfoldable pub pending_row : PendingReport → Row
unfolding name_cell date_cell
pending_row r = record {
  id = r.id;
  cells =
      name_cell (name_or_empty r.submitter) r.is_own_report
      ∷ plain r.title
      ∷ yen r.total_amount
      ∷ date_cell r.submitted_at
      ∷ [];
}

abbrev pub payable_columns : List String
payable_columns = "申請者名" ∷ "タイトル" ∷ "合計金額" ∷ "承認日" ∷ []

unfoldable pub payable_row : PayableReport → Row
unfolding name_cell date_cell
payable_row r = record {
  id = r.id;
  cells =
      name_cell (name_or_empty r.submitter) r.is_own_report
      ∷ plain r.title
      ∷ yen r.total_amount
      ∷ date_cell r.approved_at
      ∷ [];
}

abbrev pub processed_columns : List String
processed_columns = "申請者名" ∷ "タイトル" ∷ "合計金額" ∷ "処理結果" ∷ "処理日" ∷ "現在ステータス" ∷ []

unfoldable pub processed_row : ProcessedReport → Row
unfolding decision_badge date_cell
processed_row r = record {
  id = r.id;
  cells =
      plain (name_or_empty r.submitter)
      ∷ plain r.title
      ∷ yen r.total_amount
      ∷ decision_badge r.decision
      ∷ date_cell r.decided_at
      ∷ chip r.current_status
      ∷ [];
}
