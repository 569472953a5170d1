-- ===== src/ItemForm/Tests.antt =====
-- The form at concrete values.
use expense_saas.Prelude.{some, true, false, List, [], ◌∷◌, ◌≡◌, ◌≤◌, refl, All}
use expense_saas.Period.{is_outside_period, lt_text, slice}
use expense_saas.ItemForm.{
  ItemFormValues, whole, fraction, on_submit, ItemFormProps, new_form, Event, press_save,
  press_save_and_continue, confirm_warning, cancel_warning, item_form_schema, step, run,
}
use expense_saas.ItemForm.Saves.{ValidSave, confirmations, outside_saves, run-saves}

abbrev april : ItemFormProps
april = record {
  is_view = false;
  has_save_and_continue = true;
  report_period_start = some (4 ∷ 1 ∷ []);
  report_period_end = some (4 ∷ 30 ∷ []);
}

abbrev late : ItemFormValues
late = record {
  expense_date = 5 ∷ 2 ∷ [];
  amount = whole 1200;
  category_id = b'c' ∷ [];
  description = b'd' ∷ [];
}

abbrev half_yen : ItemFormValues
half_yen = record late { amount = fraction }

abbrev events : List Event
events =
    press_save half_yen
    ∷ press_save_and_continue late
    ∷ cancel_warning
    ∷ press_save late
    ∷ confirm_warning
    ∷ confirm_warning
    ∷ []

saved_once : (run april events new_form).1 ≡ (on_submit, late) ∷ []
unfolding run step new_form item_form_schema is_outside_period lt_text slice
saved_once = refl

run-saves_example :
    All ValidSave (run april events new_form).1
    × (outside_saves april (run april events new_form).1 ≤ confirmations events)
run-saves_example = run-saves april events
