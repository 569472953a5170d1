-- ===== src/ReportForm/Create.antt =====
-- frontend/src/pages/reports/ReportCreatePage.tsx: a new report, or a copy of the one that `ref`
-- names.
pub mod Kept
use expense_saas.Prelude.{
  ℕ, suc, String, Option, none, some, Bool, true, false, List, [], ◌∷◌, ◌≡◌, ◌≢◌, ◌∙◌,
}
use expense_saas.Types.{Severity, success}
use expense_saas.Hooks.{◌+++◌}
use expense_saas.ReportForm.{
  ReportFormValues, report_form_schema, Issues, Object, Form, mount, render, type_in,
}

-- What mutate sends, and where the page goes.
pub data Effect : Type 0 where
  post_report : (values : ReportFormValues) (reference_report_id : Option String) → Effect
  navigate : (path : String) (toast : Severity × String) → Effect

-- `refId`, `defaultValues` with the number of objects made for it, and the rest of the state.
pub record CreatePage : Type 0 where
  pub ref_id : Option String
  pub defaults : Option Object
  pub objects : ℕ
  pub api_error : Option String
  pub is_pending : Bool
  pub form : Form

unfoldable pub open_create : (ref_id : Option String) → CreatePage
unfolding mount
open_create ref_id = record {
  ref_id = ref_id;
  defaults = none;
  objects = 0;
  api_error = none;
  is_pending = false;
  form = mount none;
}

-- A render of the page: `defaultValues` is the object in the state.
unfoldable pub rerender : CreatePage → CreatePage
unfolding render
rerender p = record p { form = render p.defaults p.form }

-- The effect on the data of the report that `ref` names.
unfoldable pub ref_data_arrives : ReportFormValues → CreatePage → CreatePage
unfolding rerender
ref_data_arrives v p = rerender (record p {
  defaults = some record { identity = p.objects; values = v };
  objects = suc p.objects;
})

-- handleSubmit, for values that the schema accepts, and onError and onSuccess.
unfoldable pub handle_submit : CreatePage → CreatePage × List Effect
unfolding rerender
handle_submit p = (
  rerender (record p { api_error = none; is_pending = true }),
  post_report p.form.values p.ref_id ∷ [],
)

unfoldable pub create_fails : (message : String) → CreatePage → CreatePage
unfolding rerender
create_fails message p = rerender (record p { api_error = some message; is_pending = false })

abbrev pub create_succeeds : (id : String) → List Effect
create_succeeds id = navigate ("/reports/" +++ id) (success, "レポートを作成しました") ∷ []

unfoldable pub submit_if_none : Issues → CreatePage → CreatePage × List Effect
unfolding handle_submit
submit_if_none [] p = handle_submit p
submit_if_none (_ ∷ _) p = (p, [])

unfoldable pub press_create : CreatePage → CreatePage × List Effect
unfolding submit_if_none report_form_schema
press_create p = submit_if_none (report_form_schema p.form.values) p

pub data Event : Type 0 where
  change_values : ReportFormValues → Event
  create : Event
  create_is_refused : (message : String) → Event
  prefill : ReportFormValues → Event

unfoldable pub step : Event → CreatePage → CreatePage
unfolding press_create create_fails ref_data_arrives
step (change_values v) p = record p { form = type_in v p.form }
step create p = (press_create p).0
step (create_is_refused message) p = create_fails message p
step (prefill v) p = ref_data_arrives v p

unfoldable pub run : List Event → CreatePage → CreatePage
unfolding step
run [] p = p
run (e ∷ es) p = run es (step e p)

-- The values that the user sees: the last ones typed or filled in.
unfoldable pub last_values : List Event → ReportFormValues → ReportFormValues
last_values [] v = v
last_values (change_values w ∷ es) v = last_values es w
last_values (prefill w ∷ es) v = last_values es w
last_values (_ ∷ es) v = last_values es v
