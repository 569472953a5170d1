-- ===== src/ItemForm/Saves.antt =====
-- ItemForm.tsx: which saves the form lets through.
use expense_saas.Prelude.{
  ℕ, suc, Option, none, some, Bool, true, false, List, [], ◌∷◌, ◌++◌, length, ◌≡◌, ◌≤◌, ◌+◌, arith,
  refl, All, length-append,
}
use expense_saas.ItemForm.{
  Save, ItemFormProps, ItemForm, new_form, Event, press_save, press_save_and_continue,
  confirm_warning, cancel_warning, is_outside, is_valid, step, run,
}

abbrev pub is_held_back : Option Save → Bool
is_held_back none = false
is_held_back (some _) = true

abbrev pub PendingIsOutside : ItemFormProps → Option Save → Type 0
PendingIsOutside p none = Unit
PendingIsOutside p (some (callback, v)) = (is_valid v ≡ true) × (is_outside p v ≡ true)

-- The warning is shown exactly while a save is held back, and that save is valid and outside the
-- period.
pub record IsConsistent (p : ItemFormProps) (s : ItemForm) : Type 0 where
  pub warned : s.warning_open ≡ is_held_back s.pending_submit
  pub pending : PendingIsOutside p s.pending_submit

abbrev pub ValidSave : Save → Type 0
ValidSave (callback, v) = is_valid v ≡ true

step-IsConsistent :
    (p : ItemFormProps) (e : Event) (s : ItemForm)
    → IsConsistent p s
    → IsConsistent p (step p e s).0 × All ValidSave (step p e s).1
unfolding step
step-IsConsistent p (press_save v) s h = ground arith
step-IsConsistent p (press_save_and_continue v) s h = ground arith
step-IsConsistent p confirm_warning s h = ground (arith, h.pending)
step-IsConsistent p cancel_warning s h = ground arith

All-append {ℓ κ} :
    {A : Type ℓ} (P : A → Type κ) (xs ys : List A) → All P xs → All P ys → All P (xs ++ ys)
All-append P [] ys hx hy = hy
All-append P (x ∷ xs) ys hx hy = (hx.0, All-append P xs ys hx.1 hy)

run-IsConsistent :
    (p : ItemFormProps) (es : List Event) (s : ItemForm)
    → IsConsistent p s
    → IsConsistent p (run p es s).0 × All ValidSave (run p es s).1
unfolding run
run-IsConsistent p [] s h = (h, tt)
run-IsConsistent p (e ∷ es) s h =
    let now = step-IsConsistent p e s h in
    let later = run-IsConsistent p es (step p e s).0 now.0 in
    (later.0, All-append ValidSave (step p e s).1 (run p es (step p e s).0).1 now.1 later.1)

-- The confirmations in a list of events, and the saves among some that are outside the period.
abbrev pub confirmations : List Event → ℕ
confirmations [] = 0
confirmations (confirm_warning ∷ es) = suc (confirmations es)
confirmations (_ ∷ es) = confirmations es

abbrev pub presses : List Event → ℕ
presses [] = 0
presses (press_save _ ∷ es) = suc (presses es)
presses (press_save_and_continue _ ∷ es) = suc (presses es)
presses (_ ∷ es) = presses es

abbrev count_if : Bool → ℕ
count_if true = 1
count_if false = 0

abbrev pub outside_saves : ItemFormProps → List Save → ℕ
outside_saves p [] = 0
outside_saves p ((callback, v) ∷ saves) = count_if (is_outside p v) + outside_saves p saves

outside_saves-append :
    (p : ItemFormProps) (a b : List Save)
    → outside_saves p (a ++ b) ≡ outside_saves p a + outside_saves p b
outside_saves-append p [] b = omega arith
outside_saves-append p ((c, v) ∷ a) b = omega (arith, outside_saves-append p a b)

step-confirmations :
    (p : ItemFormProps) (e : Event) (s : ItemForm)
    → outside_saves p (step p e s).1 ≤ confirmations (e ∷ [])
unfolding step
step-confirmations p (press_save v) s = ground arith
step-confirmations p (press_save_and_continue v) s = ground arith
step-confirmations p confirm_warning s = ground arith
step-confirmations p cancel_warning s = ground arith

confirmations-cons :
    (e : Event) (es : List Event)
    → confirmations (e ∷ es) ≡ confirmations (e ∷ []) + confirmations es
confirmations-cons confirm_warning es = omega arith
confirmations-cons _ es = omega arith

run-confirmations :
    (p : ItemFormProps) (es : List Event) (s : ItemForm)
    → outside_saves p (run p es s).1 ≤ confirmations es
unfolding run
run-confirmations p [] s = omega arith
run-confirmations p (e ∷ es) s = omega (
  arith,
  step-confirmations p e s,
  run-confirmations p es (step p e s).0,
  outside_saves-append p (step p e s).1 (run p es (step p e s).0).1,
  confirmations-cons e es,
)

-- However the buttons are pressed, the form saves only values that its schema finds no fault with,
-- and saves values dated outside the period at most as often as the user confirms the warning.
pub run-saves :
    (p : ItemFormProps) (es : List Event)
    → All ValidSave (run p es new_form).1
      × (outside_saves p (run p es new_form).1 ≤ confirmations es)
unfolding new_form
run-saves p es = (
  (run-IsConsistent p es new_form (record { warned = refl; pending = tt })).1,
  run-confirmations p es new_form,
)

-- In every state that the form reaches, the warning is shown exactly while a save is held back, and
-- that save is valid and dated outside the period.
run-new_form-IsConsistent :
    (p : ItemFormProps) (es : List Event) → IsConsistent p (run p es new_form).0
unfolding new_form
run-new_form-IsConsistent p es =
    (run-IsConsistent p es new_form (record { warned = refl; pending = tt })).0

abbrev pub held : Option Save → ℕ
held none = 0
held (some _) = 1

step-presses :
    (p : ItemFormProps) (e : Event) (s : ItemForm)
    → length (step p e s).1 + held (step p e s).0.pending_submit
      ≤ presses (e ∷ []) + held s.pending_submit
unfolding step
step-presses p (press_save v) s = ground arith
step-presses p (press_save_and_continue v) s = ground arith
step-presses p confirm_warning s = ground arith
step-presses p cancel_warning s = ground arith

presses-cons : (e : Event) (es : List Event) → presses (e ∷ es) ≡ presses (e ∷ []) + presses es
presses-cons (press_save v) es = omega arith
presses-cons (press_save_and_continue v) es = omega arith
presses-cons _ es = omega arith

-- From any state of the form, the saves and the one still held back number at most the presses of
-- the save buttons and the one held back before: a second confirmation does not save again, and
-- what was cancelled is never saved.
run-presses :
    (p : ItemFormProps) (es : List Event) (s : ItemForm)
    → length (run p es s).1 + held (run p es s).0.pending_submit
      ≤ presses es + held s.pending_submit
unfolding run
run-presses p [] s = omega arith
run-presses p (e ∷ es) s = omega (
  arith,
  step-presses p e s,
  run-presses p es (step p e s).0,
  length-append (step p e s).1 (run p es (step p e s).0).1,
  presses-cons e es,
)
