-- ===== src/ConfirmDialog/Input.antt =====
-- ConfirmDialog.tsx: what reaches onConfirm.
use expense_saas.Prelude.{
  ℕ, Option, some, Bool, true, false, List, [], ◌∷◌, ◌==◌, not, ◌≡◌, refl, arith, all,
}
use expense_saas.Workflow.{is_space}
use expense_saas.ConfirmDialog.{
  InputField, ConfirmDialog, is_blank, is_trimmed, is_invalid, Answer, held_back, confirmed,
  handle_confirm, handle_change, handle_blur, handle_close,
}

-- The user's moves on the field and the buttons, with the answers that reach onConfirm.
pub data Event : Type 0 where
  change : (v : List ℕ) → Event
  blur confirm close : Event

unfoldable pub step :
    (loading : Bool) → Option InputField → Event → ConfirmDialog → ConfirmDialog × Answer
unfolding handle_confirm handle_change handle_blur handle_close
step loading field (change v) s = (handle_change v s, held_back)
step loading field blur s = (handle_blur s, held_back)
step loading field confirm s = handle_confirm loading field s
step loading field close s = ((handle_close loading s).0, held_back)

unfoldable pub run : Option InputField → List Event → ConfirmDialog → ConfirmDialog
unfolding step
run field [] s = s
run field (e ∷ es) s = run field es (step false field e s).0

-- Whatever the user does, a required field reaches onConfirm only with the text that stands in it,
-- which is not blank, and never while the dialog is busy.
pub step-required :
    (loading : Bool) (f : InputField) (e : Event) (s : ConfirmDialog) (v : Option (List ℕ))
    → f.required ≡ true
    → (step loading (some f) e s).1 ≡ confirmed v
    → (v ≡ some s.input_value) × (is_blank s.input_value ≡ false) × (loading ≡ false)
unfolding step
step-required loading f (change v) s w r h = ground (arith, h)
step-required loading f blur s w r h = ground (arith, h)
step-required loading f confirm s w r h = ground (arith, r, h)
step-required loading f close s w r h = ground (arith, h)

-- A press of the button of a dialog that is not busy either calls onConfirm, with the text of the
-- field if there is one, and changes nothing, or shows the error of a required field.
pub handle_confirm-answers :
    (field : Option InputField) (s : ConfirmDialog)
    → let (t, answer) = handle_confirm false field s in
      is_invalid field t ≡ elim answer [ held_back ↦ true | confirmed _ ↦ is_invalid field s ]
unfolding handle_confirm is_invalid
handle_confirm-answers field s = ground arith

-- A reason that the server takes for blank is blank to the dialog as well, unless U+0085 is in it.
pub is_blank-client :
    (s : List ℕ) → all (λ c. not (c == 0x85)) s ≡ true → all is_space s ≡ true → is_blank s ≡ true
unfolding is_blank is_trimmed is_space
is_blank-client [] h k = refl
is_blank-client (c ∷ s) h k = ground (arith, h, k, is_blank-client s)
