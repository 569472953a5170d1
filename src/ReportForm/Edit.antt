-- ===== src/ReportForm/Edit.antt =====
-- frontend/src/pages/reports/ReportEditPage.tsx: who sees the form, and what becomes of its values.
pub mod Guards
pub mod Reset
use expense_saas.Hooks.{◌+++◌}
use expense_saas.Prelude.{
  ℕ, suc, String, Option, none, some, Bool, true, false, List, [], ◌∷◌, ◌++◌, ◌==◌, ◌||◌, ◌&&◌,
  str_eq, truthy, if◌then◌else◌,
}
use expense_saas.Types.{ReportStatus, draft, Severity, success, error}
use expense_saas.Actions.{owns}
use expense_saas.Messages.{server_error_messages, entry, internal_error_message}
use expense_saas.ReportForm.{
  ReportFormValues, report_form_schema, Issues, Object, Form, mount, render, type_in,
}

-- The report as the server answered it, as far as the page reads it.
pub record Report : Type 0 where
  pub id : String
  pub status : ReportStatus
  pub submitter : String
  pub values : ReportFormValues
  pub updated_at : String

-- What an Error that is caught is.
pub data Failure : Type 0 where
  api_client_error : (message : String) → Failure
  other_error : (message : String) → Failure

-- What the effects and handlers do outside the page's state.
pub data Effect : Type 0 where
  body_toast : (message : Option String) → Effect
  navigate : (path : String) (toast : Option (Severity × String)) → Effect
  put_report : (id : String) (values : ReportFormValues) (updated_at : String) → Effect

abbrev is_draft : ReportStatus → Bool
is_draft draft = true
is_draft _ = false

-- useReport and useCurrentUser; `error` is the message of the error of the request.
pub record Data : Type 0 where
  pub error : Option String
  pub report : Option Report
  pub user : Option String

abbrev error_effects : Option String → List Effect
error_effects none = []
error_effects (some message) = body_toast (some message) ∷ navigate "/reports" none ∷ []

abbrev owner_effects : Option String → Option Report → List Effect
owner_effects none r = []
owner_effects (some user) none = []
owner_effects (some user) (some r) =
    if str_eq r.submitter user
    then []
    else body_toast (entry "FORBIDDEN" server_error_messages) ∷ []

abbrev pub report_path : String → String
report_path id = "/reports/" +++ id

abbrev status_effects : (id : String) → Option Report → List Effect
status_effects id none = []
status_effects id (some r) =
    if is_draft r.status
    then []
    else body_toast (entry "REPORT_NOT_EDITABLE" server_error_messages)
      ∷ navigate (report_path id) none
      ∷ []

-- The three effects of the page at the report `id`.
unfoldable pub page_effects : (id : String) → Data → List Effect
unfolding entry server_error_messages
page_effects id d =
    error_effects d.error ++ owner_effects d.user d.report ++ status_effects id d.report

-- The form is rendered; no request is under way.
unfoldable pub shows_form : Data → Bool
shows_form d = elim d.error [
  | some _ ↦ false
  | none ↦ elim d.report [ none ↦ false | some r ↦ is_draft r.status && owns d.user r.submitter ]
]

-- The page while the form is shown: the report, the number of renders, and the form. A render makes
-- a new object of the report's values.
pub record EditPage : Type 0 where
  pub report : Report
  pub api_error : Option String
  pub is_pending : Bool
  pub renders : ℕ
  pub form : Form

abbrev fresh : ℕ → Report → Object
fresh n r = record { identity = n; values = r.values }

unfoldable pub open_edit : Report → EditPage
unfolding mount
open_edit r = record {
  report = r;
  api_error = none;
  is_pending = false;
  renders = 1;
  form = mount (some (fresh 0 r));
}

-- A change of the page's state renders the form anew.
unfoldable pub rerender : EditPage → EditPage
unfolding render
rerender p = record p {
  renders = suc p.renders;
  form = render (some (fresh p.renders p.report)) p.form;
}

-- handleSubmit, for values that the schema accepts: `isPending` changes.
unfoldable pub handle_submit : EditPage → EditPage × List Effect
unfolding rerender
handle_submit p = (
  rerender (record p { api_error = none; is_pending = true }),
  put_report p.report.id p.form.values p.report.updated_at ∷ [],
)

abbrev pub message_of_failure : Failure → String
message_of_failure (api_client_error message) = message
message_of_failure (other_error message) =
    if truthy message then message else internal_error_message

-- onError and onSuccess
unfoldable pub update_fails : Failure → EditPage → EditPage
unfolding rerender
update_fails f p =
    rerender (record p { api_error = some (message_of_failure f); is_pending = false })

abbrev pub update_succeeds : EditPage → List Effect
update_succeeds p = navigate (report_path p.report.id) (some (success, "レポートを更新しました")) ∷ []

-- The button saves nothing where the schema has an issue.
unfoldable pub submit_if_none : Issues → EditPage → EditPage × List Effect
unfolding handle_submit
submit_if_none [] p = handle_submit p
submit_if_none (_ ∷ _) p = (p, [])

unfoldable pub press_save : EditPage → EditPage × List Effect
unfolding submit_if_none report_form_schema
press_save p = submit_if_none (report_form_schema p.form.values) p

pub data Event : Type 0 where
  change_values : ReportFormValues → Event
  save : Event
  update_is_refused : Failure → Event

unfoldable pub step : Event → EditPage → EditPage
unfolding press_save update_fails
step (change_values v) p = record p { form = type_in v p.form }
step save p = (press_save p).0
step (update_is_refused f) p = update_fails f p

unfoldable pub run : List Event → EditPage → EditPage
unfolding step
run [] p = p
run (e ∷ es) p = run es (step e p)
