-- ===== src/Types.antt =====
-- frontend/src/api/types.ts: the values that the API and the screens share. Ids, timestamps and
-- free text are texts; amounts and counts are numbers.
use expense_saas.Prelude.{String}

pub data Role : Type 0 where
  admin approver member accounting : Role

pub data ReportStatus : Type 0 where
  draft submitted approved rejected paid : ReportStatus

pub Role-discrete : Discrete Role
Role-discrete = hlevel

pub ReportStatus-discrete : Discrete ReportStatus
ReportStatus-discrete = hlevel

pub record ValidationError : Type 0 where
  pub field : String
  pub message : String

-- The severities of a toast.
pub data Severity : Type 0 where
  success error warning info : Severity
