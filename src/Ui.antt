-- ===== src/Ui.antt =====
-- frontend/src/components/ui: SubmitButton.tsx, AppTextField.tsx, AppSelect.tsx, FormAlert.tsx,
-- StatusChip.tsx and AppToast.tsx: what the shared components hand to the library of widgets.
use expense_saas.Prelude.{
  ℕ, String, Option, none, some, Bool, true, false, List, [], ◌∷◌, ◌++◌, ◌||◌, ◌&&◌, truthy, str_eq,
  if◌then◌else◌,
}
use expense_saas.Types.{Severity, error, ReportStatus, draft, submitted, approved, rejected, paid}
use expense_saas.Texts.{Chars}

-- The button of a form; it turns a spinner while it is busy.
pub record Button : Type 0 where
  pub label : Chars
  pub is_disabled : Bool
  pub is_busy : Bool

unfoldable pub submit_button : (label : Chars) (loading disabled : Bool) → Button
submit_button label loading disabled = record {
  label = label;
  is_disabled = loading || disabled;
  is_busy = loading;
}

abbrev is_message : Option String → Bool
is_message none = false
is_message (some m) = truthy m

-- A field of a form, as the widget gets it. `required` goes to the input only, so that the label
-- bears no asterisk.
pub record FieldView : Type 0 where
  pub label : String
  pub is_required_input : Bool
  pub is_read_only : Bool
  pub is_disabled : Bool
  pub is_error : Bool
  pub helper_text : Option String

-- AppTextField; a `helperText` of the caller comes last and wins.
unfoldable pub app_text_field :
    (label : String) (required read_only disabled : Bool)
    (error_message caller_helper_text : Option String)
    → FieldView
app_text_field label required read_only disabled e helper = record {
  label = label;
  is_required_input = required;
  is_read_only = read_only;
  is_disabled = disabled;
  is_error = is_message e;
  helper_text = elim helper [ none ↦ e | some t ↦ some t ];
}

pub record SelectProps : Type 0 where
  pub label : String
  -- value and label of each option
  pub options : List (String × String)
  pub value : String
  pub placeholder : Option String
  pub error_message : Option String
  pub required : Bool
  pub disabled : Bool
  pub read_only : Bool

pub record SelectView : Type 0 where
  pub field : FieldView
  pub displays_empty : Bool
  -- `shrink` is set, or left to the widget
  pub shrinks : Bool
  pub items : List (String × String)

abbrev has_empty_value : List (String × String) → Bool
has_empty_value [] = false
has_empty_value ((v, l) ∷ os) = str_eq v "" || has_empty_value os

abbrev placeholder_item : Option String → List (String × String)
placeholder_item none = []
placeholder_item (some t) = if truthy t then ("", t) ∷ [] else []

abbrev message_given : Option String → Option String
message_given none = none
message_given (some m) = if truthy m then some m else none

-- AppSelect
unfoldable pub app_select : SelectProps → SelectView
app_select p =
    let displays_empty = is_message p.placeholder || has_empty_value p.options in
    record {
      field = record {
        label = p.label;
        is_required_input = p.required;
        is_read_only = p.read_only;
        is_disabled = p.disabled;
        is_error = is_message p.error_message;
        helper_text = message_given p.error_message;
      };
      displays_empty = displays_empty;
      shrinks = displays_empty && str_eq p.value "";
      items = placeholder_item p.placeholder ++ p.options;
    }

-- FormAlert
unfoldable pub form_alert : Option String → Option Severity → Option (Severity × String)
form_alert none severity = none
form_alert (some m) none = some (error, m)
form_alert (some m) (some severity) = some (severity, m)

pub data Color : Type 0 where
  default_color info_color success_color error_color secondary_color : Color

-- STATUS_CONFIG
unfoldable pub status_chip : ReportStatus → String × Color
status_chip draft = ("下書き", default_color)
status_chip submitted = ("提出済み", info_color)
status_chip approved = ("承認済み", success_color)
status_chip rejected = ("却下", error_color)
status_chip paid = ("支払済み", secondary_color)

-- autoHideDuration: left out, or given as null or as a number.
pub data Duration : Type 0 where
  left_out null : Duration
  milliseconds : ℕ → Duration

abbrev is_error_toast : Severity → Bool
is_error_toast error = true
is_error_toast _ = false

-- `duration` of AppToast
unfoldable pub duration : Severity → Duration → Option ℕ
duration severity left_out = if is_error_toast severity then none else some 5000
duration severity null = none
duration severity (milliseconds n) = some n

-- Why the widget asks to be closed, and the button of the alert.
pub data Reason : Type 0 where
  timeout clickaway escape_key_down close_button : Reason

-- handleClose and the button: whether onClose is called.
unfoldable pub closes_toast : Reason → Bool
closes_toast clickaway = false
closes_toast timeout = true
closes_toast escape_key_down = true
closes_toast close_button = true
