-- ===== src/ReportForm/Schema.antt =====
-- What reportFormSchema accepts.
use expense_saas.Prelude.{true, false, [], length, ◌≤◌, ◌≡◌, ◌↔◌, refl, arith}
use expense_saas.Texts.{Chars, is_given}
use expense_saas.Period.{lt_text}
use expense_saas.Period.Order.{Date, Fits, earlier, iso_date, lt_text-iso_date}
use expense_saas.ReportForm.{ReportFormValues, report_form_schema}

report_form_schema_iff :
    (v : ReportFormValues)
    → (report_form_schema v ≡ []) ↔ (
        (1 ≤ length v.title)
        × (length v.title ≤ 200)
        × (is_given v.period_start ≡ true)
        × (is_given v.period_end ≡ true)
        × (lt_text v.period_end v.period_start ≡ false))
unfolding report_form_schema
report_form_schema_iff v = ground arith

iso_date-is_given : (d : Date) → is_given (iso_date d) ≡ true
unfolding iso_date
iso_date-is_given d = refl

-- With two dates in the fields of the period, the form is accepted exactly if the title has between
-- 1 and 200 code units and the period does not end before it starts in the calendar.
pub report_form_schema-iso_date :
    (title : Chars) (first last : Date)
    → Fits first
    → Fits last
    → (report_form_schema
          record { title = title; period_start = iso_date first; period_end = iso_date last }
        ≡ [])
      ↔ ((1 ≤ length title) × (length title ≤ 200) × (earlier last first ≡ false))
report_form_schema-iso_date title first last f l =
    let v : ReportFormValues = record {
      title = title;
      period_start = iso_date first;
      period_end = iso_date last;
    } in
    ground (
      arith,
      report_form_schema_iff v,
      iso_date-is_given first,
      iso_date-is_given last,
      lt_text-iso_date last first l f,
    )
