-- ===== src/ReportForm.antt =====
-- frontend/src/components/report/ReportForm.tsx and ReportPeriodField.tsx, and the pages that show
-- the form: frontend/src/pages/reports/ReportCreatePage.tsx and ReportEditPage.tsx.
pub mod Schema
pub mod Edit
pub mod Create
mod Tests
use expense_saas.Prelude.{
  ℕ, String, Option, none, some, Bool, true, false, List, [], ◌∷◌, ◌++◌, ◌==◌, ◌||◌, ◌&&◌, not,
  length, ltb, if◌then◌else◌,
}
use expense_saas.Texts.{Chars, is_given}
use expense_saas.Period.{lt_text}

pub record ReportFormValues : Type 0 where
  pub title : Chars
  pub period_start : Chars
  pub period_end : Chars

-- DEFAULT_VALUES
abbrev pub default_values : ReportFormValues
default_values = record { title = []; period_start = []; period_end = [] }

pub data Field : Type 0 where
  title period_start period_end : Field

abbrev pub Issues : Type 0
Issues = List (Field × String)

abbrev issue_if : Bool → Field → String → Issues
issue_if true field message = (field, message) ∷ []
issue_if false field message = []

-- The test of both refinements.
abbrev pub is_ordered : ReportFormValues → Bool
is_ordered v =
    not (is_given v.period_start)
    || not (is_given v.period_end)
    || not (lt_text v.period_end v.period_start)

-- reportFormSchema; the refinements run whatever the issues of the fields are.
unfoldable pub report_form_schema : ReportFormValues → Issues
unfolding lt_text
report_form_schema v =
    issue_if (ltb (length v.title) 1) title "タイトルを入力してください"
    ++ issue_if (ltb 200 (length v.title)) title "タイトルは200文字以内で入力してください"
    ++ issue_if (not (is_given v.period_start)) period_start "開始日を入力してください"
    ++ issue_if (not (is_given v.period_end)) period_end "終了日を入力してください"
    ++ issue_if (not (is_ordered v)) period_start "開始日は終了日以前を指定してください"
    ++ issue_if (not (is_ordered v)) period_end "終了日は開始日以降を指定してください"

-- handlePeriodBlur: the fields that are validated when a field of the period loses the focus.
unfoldable pub handle_period_blur : Field → ReportFormValues → List Field
handle_period_blur field v =
    if is_given v.period_start && is_given v.period_end
    then field ∷ period_start ∷ period_end ∷ []
    else field ∷ []

-- An object of the program: values with an identity, which the dependencies of an effect compare.
pub record Object : Type 0 where
  pub identity : ℕ
  pub values : ReportFormValues

-- The form: its values, and the `defaultValues` of its last render.
pub record Form : Type 0 where
  pub values : ReportFormValues
  pub defaults : Option Object

abbrev is_new : Object → Option Object → Bool
is_new o none = true
is_new o (some last) = not (o.identity == last.identity)

abbrev values_or : Option Object → ReportFormValues → ReportFormValues
values_or none v = v
values_or (some o) v = o.values

-- The form is mounted, and the effect runs.
unfoldable pub mount : Option Object → Form
mount defaults = record { values = values_or defaults default_values; defaults = defaults }

-- The page renders the form again: the effect resets the form where `defaultValues` is given and is
-- another object than in the last render.
unfoldable pub render : Option Object → Form → Form
render none f = record f { defaults = none }
render (some o) f =
    if is_new o f.defaults
    then record { values = o.values; defaults = some o }
    else record f { defaults = some o }

-- The user changes the values.
abbrev pub type_in : ReportFormValues → Form → Form
type_in v f = record f { values = v }
