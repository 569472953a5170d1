-- ===== src/ConfirmDialog.antt =====
-- frontend/src/components/ui/ConfirmDialog.tsx with frontend/src/hooks/usePrevious.ts: the input of
-- the dialog, and what it shows while it closes.
pub mod Input
pub mod Display
mod Tests
use expense_saas.Prelude.{
  ℕ, String, Option, none, some, Bool, true, false, List, [], ◌∷◌, ◌==◌, ◌||◌, ◌&&◌, not, leb,
  if◌then◌else◌,
}

pub record InputField : Type 0 where
  pub label : String
  pub required : Bool
  pub max_length : ℕ
  pub error_message : Option String

-- What the dialog shows: the properties that are held back while it closes.
pub record Shown : Type 0 where
  pub title : String
  pub message : String
  pub confirm_label : String
  pub confirm_color : String
  pub input_field : Option InputField
  pub api_error : Option String

pub record Props : Type 0 where
  pub is_open : Bool
  pub shown : Shown
  pub loading : Bool

-- The state of the component; `previous` stands for the references of the usePrevious calls.
pub record ConfirmDialog : Type 0 where
  pub input_value : List ℕ
  pub touched : Bool
  pub previous : Option Shown

unfoldable pub new_dialog : ConfirmDialog
new_dialog = record { input_value = []; touched = false; previous = none }

-- The code units that `trim` removes.
unfoldable pub is_trimmed : ℕ → Bool
is_trimmed c =
    (leb 9 c && leb c 13)
    || c == 0x20
    || c == 0xA0
    || c == 0x1680
    || (leb 0x2000 c && leb c 0x200A)
    || c == 0x2028
    || c == 0x2029
    || c == 0x202F
    || c == 0x205F
    || c == 0x3000
    || c == 0xFEFF

-- `s.trim() === ''`
unfoldable pub is_blank : List ℕ → Bool
is_blank [] = true
is_blank (c ∷ s) = is_trimmed c && is_blank s

-- `a ?? b`
abbrev pub or_else {ℓ} : {A : Type ℓ} → Option A → Option A → Option A
or_else none b = b
or_else (some a) b = some a

-- The display props: the properties while the dialog is open, else those of the render before.
unfoldable pub display : Props → Option Shown → Shown
display p none = p.shown
display p (some q) = if p.is_open then p.shown else record {
  title = q.title;
  message = q.message;
  confirm_label = q.confirm_label;
  confirm_color = q.confirm_color;
  input_field = or_else q.input_field p.shown.input_field;
  api_error = or_else q.api_error p.shown.api_error;
}

abbrev pub is_required : Option InputField → Bool
is_required none = false
is_required (some f) = f.required

-- isInvalid
unfoldable pub is_invalid : Option InputField → ConfirmDialog → Bool
is_invalid field s = is_required field && s.touched && is_blank s.input_value

-- What onConfirm is called with, if it is called.
pub data Answer : Type 0 where
  held_back : Answer
  confirmed : (input_value : Option (List ℕ)) → Answer

abbrev argument : Option InputField → List ℕ → Option (List ℕ)
argument none v = none
argument (some _) v = some v

-- handleConfirm, behind a button that is disabled while `loading`.
unfoldable pub handle_confirm :
    (loading : Bool) → Option InputField → ConfirmDialog → ConfirmDialog × Answer
handle_confirm loading field s =
    if loading
    then (s, held_back)
    else if is_required field && is_blank s.input_value
    then (record s { touched = true }, held_back)
    else (s, confirmed (argument field s.input_value))

-- onChange and onBlur of the field.
unfoldable pub handle_change : List ℕ → ConfirmDialog → ConfirmDialog
handle_change v s = record s {
  input_value = v;
  touched = if not (is_blank v) && s.touched then false else s.touched;
}

unfoldable pub handle_blur : ConfirmDialog → ConfirmDialog
handle_blur s = record s { touched = true }

-- handleClose, which also calls onCancel; it is not there while `loading`.
unfoldable pub handle_close : (loading : Bool) → ConfirmDialog → ConfirmDialog × Bool
handle_close loading s =
    if loading then (s, false) else (record s { input_value = []; touched = false }, true)

-- The effect behind a change of `open` to false.
unfoldable pub reset : ConfirmDialog → ConfirmDialog
reset s = record s { input_value = []; touched = false }

-- `reset` changes something, so that React renders again.
abbrev pub needs_reset : ConfirmDialog → Bool
needs_reset s = s.touched || (elim s.input_value [ [] ↦ false | _ ∷ _ ↦ true ])

-- A render with new properties, up to the point where nothing is left to render: what each render
-- shows, in order, and the state behind the effects.
unfoldable pub commit : (was_open : Bool) → Props → ConfirmDialog → List Shown × ConfirmDialog
unfolding display reset
commit was_open p s =
    let first = display p s.previous in
    let rendered = record s { previous = some p.shown } in
    if was_open && not p.is_open && needs_reset s
    then (first ∷ display p (some p.shown) ∷ [], reset rendered)
    else (first ∷ [], rendered)
