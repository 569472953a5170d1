-- ===== src/ConfirmDialog/Display.antt =====
-- ConfirmDialog.tsx: what is shown while the dialog closes, and where it opens again.
use expense_saas.ConfirmDialog.Input.{Event, confirm, step, run, step-required}
use expense_saas.Prelude.{
  Option, none, some, Bool, true, false, [], ◌∷◌, ◌≡◌, refl, arith, if◌then◌else◌, List, ℕ, ap, ◌∙◌,
}
use expense_saas.ConfirmDialog.{
  InputField, Shown, Props, ConfirmDialog, or_else, display, commit, needs_reset, is_invalid, reset,
  new_dialog, is_blank, confirmed, is_required,
}

-- The dialog behind the render in which it opens with the properties p.
abbrev pub opened : Shown → ConfirmDialog
opened p = (commit false (record { is_open = true; shown = p; loading = false }) new_dialog).1

-- What was shown, where it was given, before the properties of the closing render.
abbrev pub kept : (before closing : Shown) → Shown
kept p q = record p {
  input_field = or_else p.input_field q.input_field;
  api_error = or_else p.api_error q.api_error;
}

or_else-same {ℓ} : {A : Type ℓ} (a : Option A) → or_else a a ≡ a
or_else-same none = refl
or_else-same (some x) = refl

commit-kept :
    (p q : Shown) (loading : Bool) (s : ConfirmDialog)
    → s.previous ≡ some p
    → (commit true (record { is_open = false; shown = q; loading = loading }) s).0
      ≡ (if needs_reset s then kept p q ∷ q ∷ [] else kept p q ∷ [])
unfolding commit display
commit-kept p q loading s h =
    rw h (ground (arith, or_else-same q.input_field, or_else-same q.api_error))

step-previous :
    (field : Option InputField) (e : Event) (s : ConfirmDialog)
    → (step false field e s).0.previous ≡ s.previous
unfolding step
step-previous field e s = ground arith

run-previous :
    (field : Option InputField) (es : List Event) (s : ConfirmDialog)
    → (run field es s).previous ≡ s.previous
unfolding run
run-previous field [] s = refl
run-previous field (e ∷ es) s =
    run-previous field es (step false field e s).0 ∙ step-previous field e s

required-answer :
    (field : Option InputField) (s : ConfirmDialog) (v : Option (List ℕ))
    → is_required field ≡ true
    → (step false field confirm s).1 ≡ confirmed v
    → is_blank s.input_value ≡ false
required-answer none s v r h = absurd (ground (arith, r))
required-answer (some f) s v r h =
    let (text, filled, free) = step-required false f confirm s v r h in filled

confirm-keeps :
    (field : Option InputField) (s : ConfirmDialog) (v : Option (List ℕ))
    → (step false field confirm s).1 ≡ confirmed v
    → (step false field confirm s).0 ≡ s
unfolding step
confirm-keeps field s v h = ground (arith, h)

not_blank-needs_reset : (s : ConfirmDialog) → is_blank s.input_value ≡ false → needs_reset s ≡ true
unfolding is_blank
not_blank-needs_reset s h = ground (arith, h)

opened-commit : (p : Shown) → ((opened p).previous ≡ some p) × (needs_reset (opened p) ≡ false)
unfolding commit new_dialog
opened-commit p = (refl, refl)

-- Whatever the user has done in a dialog whose field is required: when its answer goes through and
-- it closes with other properties, it is rendered twice, first with what it showed and then with the
-- new properties. A dialog that closes without anything done in it goes on showing what it showed.
pub commit-closing :
    (p q : Shown) (es : List Event) (v : Option (List ℕ)) (loading : Bool)
    → is_required p.input_field ≡ true
    → (step false p.input_field confirm (run p.input_field es (opened p))).1 ≡ confirmed v
    → let closing : Props = record { is_open = false; shown = q; loading = loading } in
      let answered = (step false p.input_field confirm (run p.input_field es (opened p))).0 in
      ((commit true closing answered).0 ≡ kept p q ∷ q ∷ [])
      × ((commit true closing (opened p)).0 ≡ kept p q ∷ [])
commit-closing p q es v loading required h =
    let field = p.input_field in
    let s = run field es (opened p) in
    let answered = (step false field confirm s).0 in
    let same = confirm-keeps field s v h in
    let before =
      ap (λ t. t.previous) same ∙ run-previous field es (opened p) ∙ (opened-commit p).0 in
    let resets =
      ap needs_reset same ∙ not_blank-needs_reset s (required-answer field s v required h) in
    (
      commit-kept p q loading answered before ∙ rw resets refl,
      commit-kept p q loading (opened p) (opened-commit p).0 ∙ rw ((opened-commit p).1) refl,
    )

-- However the dialog was closed, its field is empty and without an error when it opens again.
pub commit-reopened :
    (p q : Props) (s : ConfirmDialog) (field : Option InputField)
    → p.is_open ≡ false
    → let t = (commit false q (commit true p s).1).1 in
      (t.input_value ≡ []) × (is_invalid field t ≡ false)
unfolding commit reset is_invalid
commit-reopened p q s field h = ground (arith, h)
