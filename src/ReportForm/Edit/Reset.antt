-- ===== src/ReportForm/Edit/Reset.antt =====
-- What becomes of the values in the form of ReportEditPage.
use expense_saas.Prelude.{
  String, Option, none, some, Bool, true, false, List, [], ◌∷◌, ◌<◌, ◌≡◌, ◌∙◌, refl, arith, ◌==◌,
  ap,
}
use expense_saas.ReportForm.{report_form_schema, Object, Form, render, Issues}
use expense_saas.ReportForm.Edit.{
  Report, Failure, put_report, EditPage, open_edit, rerender, handle_submit, press_save,
  submit_if_none, update_fails, Event, change_values, save, update_is_refused, step, run,
  message_of_failure,
}

-- The object of the last render is an earlier one than that of the next, and the page shows the
-- report `r`.
record IsFresh (r : Report) (p : EditPage) : Type 0 where
  report : p.report ≡ r
  last : Object
  defaults : p.form.defaults ≡ some last
  earlier : last.identity < p.renders

-- An object that is newer than the last one resets the form.
render-newer :
    (o last : Object) (f : Form)
    → f.defaults ≡ some last
    → last.identity < o.identity
    → render (some o) f ≡ record { values = o.values; defaults = some o }
unfolding render
render-newer o last f h lt = rw (h, differs) refl
  where
    differs : (o.identity == last.identity) ≡ false
    differs = ground arith

rerender-form :
    (r : Report) (p : EditPage)
    → IsFresh r p
    → (rerender p).form ≡ record {
      values = r.values;
      defaults = some record { identity = p.renders; values = r.values };
    }
unfolding rerender
rerender-form r p fresh =
    render-newer (record { identity = p.renders; values = p.report.values }) fresh.last p.form
      fresh.defaults fresh.earlier
    ∙ ap
        (λ q. record {
          values = q.values;
          defaults = some record { identity = p.renders; values = q.values };
        })
        fresh.report

rerender-IsFresh : (r : Report) (p : EditPage) → IsFresh r p → IsFresh r (rerender p)
unfolding rerender
rerender-IsFresh r p fresh = record {
  report = fresh.report;
  last = record { identity = p.renders; values = r.values };
  defaults = ap (λ f. f.defaults) (rerender-form r p fresh);
  earlier = omega arith;
}

-- What else the page keeps does not matter.
with_state :
    {r : Report} {p : EditPage} (failed : Option String) (pending : Bool)
    → IsFresh r p
    → IsFresh r (record p { api_error = failed; is_pending = pending })
with_state failed pending fresh = record {
  report = fresh.report;
  last = fresh.last;
  defaults = fresh.defaults;
  earlier = fresh.earlier;
}

submit_if_none-IsFresh :
    (r : Report) (issues : Issues) (p : EditPage)
    → IsFresh r p
    → IsFresh r (submit_if_none issues p).0
unfolding submit_if_none
submit_if_none-IsFresh r [] p fresh = rerender-IsFresh r _ (with_state none true fresh)
submit_if_none-IsFresh r (_ ∷ _) p fresh = fresh

step-IsFresh : (r : Report) (e : Event) (p : EditPage) → IsFresh r p → IsFresh r (step e p)
unfolding step press_save
step-IsFresh r (change_values v) p fresh = record {
  report = fresh.report;
  last = fresh.last;
  defaults = fresh.defaults;
  earlier = fresh.earlier;
}
step-IsFresh r save p fresh = submit_if_none-IsFresh r (report_form_schema p.form.values) p fresh
step-IsFresh r (update_is_refused f) p fresh =
    rerender-IsFresh r _ (with_state (some _) false fresh)

run-IsFresh : (r : Report) (es : List Event) (p : EditPage) → IsFresh r p → IsFresh r (run es p)
unfolding run
run-IsFresh r [] p fresh = fresh
run-IsFresh r (e ∷ es) p fresh = run-IsFresh r es (step e p) (step-IsFresh r e p fresh)

open_edit-IsFresh : (r : Report) → IsFresh r (open_edit r)
unfolding open_edit
open_edit-IsFresh r = record {
  report = refl;
  last = record { identity = 0; values = r.values };
  defaults = refl;
  earlier = omega arith;
}

handle_submit-values :
    (r : Report) (p : EditPage) (f : Failure)
    → IsFresh r p
    → ((handle_submit p).1 ≡ put_report r.id p.form.values r.updated_at ∷ [])
      × ((handle_submit p).0.form.values ≡ r.values)
      × ((update_fails f (handle_submit p).0).form.values ≡ r.values)
unfolding handle_submit update_fails
handle_submit-values r p f fresh =
    let sent = with_state none true fresh in
    (
      ap (λ q. put_report q.id p.form.values q.updated_at ∷ []) fresh.report,
      ap (λ form. form.values) (rerender-form r _ sent),
      ap (λ form. form.values)
          (rerender-form r _
            (with_state (some (message_of_failure f)) false (rerender-IsFresh r _ sent))),
    )

-- Whatever the user has done on ReportEditPage before, a press on the button with values that the
-- schema accepts sends these values, but the form then shows the values of the loaded report again,
-- during the request and after its refusal.
pub press_save-values :
    (r : Report) (es : List Event) (f : Failure)
    → let p = run es (open_edit r) in
      report_form_schema p.form.values ≡ []
      → ((press_save p).1 ≡ put_report r.id p.form.values r.updated_at ∷ [])
        × ((press_save p).0.form.values ≡ r.values)
        × ((update_fails f (press_save p).0).form.values ≡ r.values)
unfolding press_save
press_save-values r es f h =
    let p = run es (open_edit r) in
    let fresh = run-IsFresh r es (open_edit r) (open_edit-IsFresh r) in
    let pressed : press_save p ≡ handle_submit p = ap (λ issues. submit_if_none issues p) h in
    rw pressed (handle_submit-values r p f fresh)
