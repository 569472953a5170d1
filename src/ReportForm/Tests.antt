-- ===== src/ReportForm/Tests.antt =====
-- A report of April and its forms.
use expense_saas.Prelude.{some, false, List, [], ◌∷◌, length, ◌≡◌, ◌≤◌, ◌↔◌, refl, arith}
use expense_saas.Types.{draft}
use expense_saas.Texts.{codes}
use expense_saas.Period.Order.{Date, earlier, iso_date}
use expense_saas.ReportForm.{ReportFormValues, report_form_schema, default_values}
use expense_saas.ReportForm.Schema.{report_form_schema-iso_date}
use expense_saas.ReportForm.Edit
use expense_saas.ReportForm.Edit.{Report, put_report, open_edit, press_save, update_fails}
use expense_saas.ReportForm.Edit.Reset.{press_save-values}
use expense_saas.ReportForm.Create
use expense_saas.ReportForm.Create.{open_create, last_values}
use expense_saas.ReportForm.Create.Kept.{run-last_values}

abbrev first : Date
first = record { year = 2026; month = 4; day = 1 }

abbrev last : Date
last = record { year = 2026; month = 4; day = 30 }

report_form_schema-iso_date_example :
    (report_form_schema
        record { title = codes "April"; period_start = iso_date first; period_end = iso_date last }
      ≡ [])
    ↔ ((1 ≤ length (codes "April")) × (length (codes "April") ≤ 200) × (earlier last first ≡ false))
report_form_schema-iso_date_example =
    report_form_schema-iso_date (codes "April") first last
      record { year = omega arith; month = omega arith; day = omega arith }
      record { year = omega arith; month = omega arith; day = omega arith }

abbrev loaded : ReportFormValues
loaded = record {
  title = codes "April";
  period_start = codes "2026-04-01";
  period_end = codes "2026-04-30";
}

abbrev typed : ReportFormValues
typed = record loaded { title = codes "April, office" }

abbrev april : Report
april = record { id = "r"; status = draft; submitter = "u"; values = loaded; updated_at = "t" }

abbrev edits : List Edit.Event
edits = Edit.change_values typed ∷ []

accepted : report_form_schema (Edit.run edits (open_edit april)).form.values ≡ []
unfolding report_form_schema Edit.run
accepted = refl

press_save-values_example :
    ((press_save (Edit.run edits (open_edit april))).1
      ≡ put_report "r" (Edit.run edits (open_edit april)).form.values "t" ∷ [])
    × ((press_save (Edit.run edits (open_edit april))).0.form.values ≡ loaded)
    × ((update_fails
          (Edit.api_client_error "conflict")
          (press_save (Edit.run edits (open_edit april))).0).form.values
        ≡ loaded)
press_save-values_example =
    press_save-values april edits (Edit.api_client_error "conflict") accepted

abbrev tries : List Create.Event
tries =
    Create.prefill loaded
    ∷ Create.change_values typed
    ∷ Create.create
    ∷ Create.create_is_refused "no"
    ∷ []

run-last_values_example :
    (Create.run tries (open_create (some "r"))).form.values ≡ last_values tries default_values
run-last_values_example = run-last_values (some "r") tries
