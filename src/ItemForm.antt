-- ===== src/ItemForm.antt =====
-- frontend/src/pages/reports/ItemForm.tsx: the validation of an item and the way from the save
-- buttons to the callbacks, with the warning on a date outside the period of the report.
pub mod Saves
pub mod Display
mod Tests
use expense_saas.Prelude.{
  ℕ, String, Option, none, some, Bool, true, false, List, [], ◌∷◌, ◌++◌, ltb, ◌||◌, ◌&&◌,
  if◌then◌else◌, length,
}
use expense_saas.Period.{is_outside_period}

-- A JavaScript number as the schema tells them apart.
pub data Number : Type 0 where
  not_a_number : Number
  fraction : Number
  negative : (absolute : ℕ) → Number
  whole : (n : ℕ) → Number

-- A text is the list of its UTF-16 code units.
pub record ItemFormValues : Type 0 where
  pub expense_date : List ℕ
  pub amount : Number
  pub category_id : List ℕ
  pub description : List ℕ

pub data Field : Type 0 where
  expense_date amount category_id description : Field

-- Number.MAX_SAFE_INTEGER
abbrev pub max_safe_integer : ℕ
max_safe_integer = 9007199254740991

abbrev amount_error : Number → Option String
amount_error not_a_number = some "金額を入力してください"
amount_error fraction = some "円単位の整数で入力してください"
amount_error (negative n) =
    if ltb max_safe_integer n then some "円単位の整数で入力してください" else some "正の金額を入力してください"
amount_error (whole n) =
    if ltb max_safe_integer n
    then some "円単位の整数で入力してください"
    else if ltb 0 n
    then none
    else some "正の金額を入力してください"

abbrev required_error : (message : String) → List ℕ → Option String
required_error message [] = some message
required_error message (_ ∷ _) = none

abbrev description_error : List ℕ → Option String
description_error [] = some "摘要を入力してください"
description_error (x ∷ s) = if ltb 500 (length (x ∷ s)) then some "摘要は500文字以内で入力してください" else none

abbrev error_at : Field → Option String → List (Field × String)
error_at f none = []
error_at f (some message) = (f, message) ∷ []

-- itemFormSchema: the first message of each field that is at fault.
unfoldable pub item_form_schema : ItemFormValues → List (Field × String)
item_form_schema v =
    error_at expense_date (required_error "日付を入力してください" v.expense_date)
    ++ error_at amount (amount_error v.amount)
    ++ error_at category_id (required_error "カテゴリを選択してください" v.category_id)
    ++ error_at description (description_error v.description)

-- The callbacks of the form.
pub data Callback : Type 0 where
  on_submit on_save_and_continue : Callback

abbrev pub Save : Type 0
Save = Callback × ItemFormValues

pub record ItemFormProps : Type 0 where
  pub is_view : Bool
  pub has_save_and_continue : Bool
  pub report_period_start : Option (List ℕ)
  pub report_period_end : Option (List ℕ)

-- `periodWarningDialogOpen` and `pendingSubmitCallbackRef`.
pub record ItemForm : Type 0 where
  pub warning_open : Bool
  pub pending_submit : Option Save

unfoldable pub new_form : ItemForm
new_form = record { warning_open = false; pending_submit = none }

-- What the user does: presses a save button over these values, or answers the warning.
pub data Event : Type 0 where
  press_save : (values : ItemFormValues) → Event
  press_save_and_continue : (values : ItemFormValues) → Event
  confirm_warning : Event
  cancel_warning : Event

abbrev pub is_outside : ItemFormProps → ItemFormValues → Bool
is_outside p v =
    is_outside_period p.is_view p.report_period_start p.report_period_end v.expense_date

abbrev pub is_valid : ItemFormValues → Bool
is_valid v = elim (item_form_schema v) [ [] ↦ true | _ ∷ _ ↦ false ]

-- executeSaveWithPeriodCheck; the callbacks that run are returned.
unfoldable pub execute_save_with_period_check :
    ItemFormProps → Callback → ItemFormValues → ItemForm → ItemForm × List Save
execute_save_with_period_check p callback v s =
    if is_outside p v
    then (record { warning_open = true; pending_submit = some (callback, v) }, [])
    else (s, (callback, v) ∷ [])

-- handlePeriodWarningConfirm
unfoldable pub handle_period_warning_confirm : ItemForm → ItemForm × List Save
handle_period_warning_confirm s = elim s.pending_submit [
  | none ↦ (record s { warning_open = false }, [])
  | some save ↦ (record { warning_open = false; pending_submit = none }, save ∷ [])
]

-- handlePeriodWarningCancel
unfoldable pub handle_period_warning_cancel : ItemForm → ItemForm
handle_period_warning_cancel s = record { warning_open = false; pending_submit = none }

-- handleFormSubmit, handleSaveAndContinue and the two buttons of the warning. handleSubmit runs its
-- callback on valid values only.
unfoldable pub step : ItemFormProps → Event → ItemForm → ItemForm × List Save
unfolding execute_save_with_period_check handle_period_warning_confirm handle_period_warning_cancel
step p (press_save v) s =
    if is_valid v then execute_save_with_period_check p on_submit v s else (s, [])
step p (press_save_and_continue v) s =
    if is_valid v && p.has_save_and_continue
    then execute_save_with_period_check p on_save_and_continue v s
    else (s, [])
step p confirm_warning s = handle_period_warning_confirm s
step p cancel_warning s = (handle_period_warning_cancel s, [])

unfoldable pub run : ItemFormProps → List Event → ItemForm → ItemForm × List Save
run p [] s = (s, [])
run p (e ∷ es) s = let next = step p e s in let rest = run p es next.0 in (rest.0, next.1 ++ rest.1)
