-- ===== src/ReportForm/Edit/Guards.antt =====
-- Who sees the form of ReportEditPage.
use expense_saas.Prelude.{String, Option, none, some, true, [], ◌≡◌, ◌↔◌, arith, eq_iff}
use expense_saas.ReportForm.Edit.{Report, Data, page_effects, shows_form}

-- Once the report and the user are loaded, the form is shown exactly if the page neither shows the
-- toast of an error nor leaves for another page.
shows_form_iff :
    (id : String) (error : Option String) (r : Report) (user : String)
    → let d : Data = record { error = error; report = some r; user = some user } in
      (shows_form d ≡ true) ↔ (page_effects id d ≡ [])
unfolding shows_form page_effects
shows_form_iff id (some message) r user = ground arith
shows_form_iff id none r user = ground (arith, eq_iff r.submitter user, eq_iff user r.submitter)
