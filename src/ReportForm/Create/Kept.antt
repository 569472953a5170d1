-- ===== src/ReportForm/Create/Kept.antt =====
-- The values in the form of ReportCreatePage are kept.
use expense_saas.Prelude.{
  ℕ, String, Option, none, some, Bool, true, false, List, [], ◌∷◌, ◌<◌, ◌≡◌, ◌∙◌, refl, sym, ap,
  arith, if◌then◌else◌,
}
use expense_saas.ReportForm.{
  ReportFormValues, report_form_schema, Issues, Object, Form, render, default_values, is_new,
}
use expense_saas.ReportForm.Create.{
  CreatePage, open_create, rerender, ref_data_arrives, handle_submit, create_fails, submit_if_none,
  press_create, Event, change_values, create, create_is_refused, prefill, step, run, last_values,
}

-- The form has seen the page's `defaultValues`, which is one of the objects made so far, and has the
-- values `v`.
record IsKept (v : ReportFormValues) (p : CreatePage) : Type 0 where
  seen : p.form.defaults ≡ p.defaults
  older : (o : Object) → p.defaults ≡ some o → o.identity < p.objects
  values : p.form.values ≡ v

-- What `render` makes of the form, by whether the object is new to it.
rendered : Bool → Object → Form → Form
rendered b o f =
    if b then record { values = o.values; defaults = some o } else record f { defaults = some o }

render-same : (d : Option Object) (f : Form) → f.defaults ≡ d → render d f ≡ f
unfolding render rendered
render-same none f h = ap (λ d. record f { defaults = d }) (sym h)
render-same (some o) f h =
    let old : is_new o f.defaults ≡ false = ap (is_new o) h ∙ ground arith in
    ap (λ b. rendered b o f) old ∙ ap (λ d. record f { defaults = d }) (sym h)

is_new-older :
    (o : Object) (d : Option Object)
    → ((last : Object) → d ≡ some last → last.identity < o.identity)
    → is_new o d ≡ true
is_new-older o none older = refl
is_new-older o (some last) older = ground (arith, older last refl)

render-newer :
    (o : Object) (f : Form)
    → ((last : Object) → f.defaults ≡ some last → last.identity < o.identity)
    → render (some o) f ≡ record { values = o.values; defaults = some o }
unfolding render rendered
render-newer o f older = ap (λ b. rendered b o f) (is_new-older o f.defaults older)

rerender-IsKept : (v : ReportFormValues) (p : CreatePage) → IsKept v p → IsKept v (rerender p)
unfolding rerender
rerender-IsKept v p kept =
    let same = render-same p.defaults p.form kept.seen in
    record {
      seen = ap (λ f. f.defaults) same ∙ kept.seen;
      older = kept.older;
      values = ap (λ f. f.values) same ∙ kept.values;
    }

with_state :
    {v : ReportFormValues} {p : CreatePage} (failed : Option String) (pending : Bool)
    → IsKept v p
    → IsKept v (record p { api_error = failed; is_pending = pending })
with_state failed pending kept = record {
  seen = kept.seen;
  older = kept.older;
  values = kept.values;
}

abbrev identity_of : Option Object → ℕ
identity_of none = 0
identity_of (some o) = o.identity

ref_data_arrives-IsKept :
    (v w : ReportFormValues) (p : CreatePage) → IsKept v p → IsKept w (ref_data_arrives w p)
unfolding ref_data_arrives rerender
ref_data_arrives-IsKept v w p kept =
    let o : Object = record { identity = p.objects; values = w } in
    let reset = render-newer o p.form (λ last h. kept.older last (sym kept.seen ∙ h)) in
    record {
      seen = ap (λ f. f.defaults) reset;
      older = λ last h. omega (arith, ap identity_of h);
      values = ap (λ f. f.values) reset;
    }

submit_if_none-IsKept :
    (v : ReportFormValues) (issues : Issues) (p : CreatePage)
    → IsKept v p
    → IsKept v (submit_if_none issues p).0
unfolding submit_if_none handle_submit
submit_if_none-IsKept v [] p kept = rerender-IsKept v _ (with_state none true kept)
submit_if_none-IsKept v (_ ∷ _) p kept = kept

run-IsKept :
    (es : List Event) (v : ReportFormValues) (p : CreatePage)
    → IsKept v p
    → IsKept (last_values es v) (run es p)
unfolding run step last_values press_create create_fails
run-IsKept [] v p kept = kept
run-IsKept (change_values w ∷ es) v p kept =
    run-IsKept es w _ record { seen = kept.seen; older = kept.older; values = refl }
run-IsKept (create ∷ es) v p kept =
    run-IsKept es v _ (submit_if_none-IsKept v (report_form_schema p.form.values) p kept)
run-IsKept (create_is_refused message ∷ es) v p kept =
    run-IsKept es v _ (rerender-IsKept v _ (with_state (some message) false kept))
run-IsKept (prefill w ∷ es) v p kept = run-IsKept es w _ (ref_data_arrives-IsKept v w p kept)

open_create-IsKept : (ref_id : Option String) → IsKept default_values (open_create ref_id)
unfolding open_create
open_create-IsKept ref_id = record {
  seen = refl;
  older = λ o h. absurd (ground arith);
  values = refl;
}

-- However ReportCreatePage is used, also after a request that was refused, the form has the values
-- that were typed or filled in last.
pub run-last_values :
    (ref_id : Option String) (es : List Event)
    → (run es (open_create ref_id)).form.values ≡ last_values es default_values
run-last_values ref_id es =
    (run-IsKept es default_values (open_create ref_id) (open_create-IsKept ref_id)).values
