-- ===== src/ItemPanel/Tests.antt =====
-- The panel at concrete values.
use expense_saas.ItemPanel.Display.{
  PanelInputs, panel_view, form_inputs, sequential_progress_label, offers, takes_press, is_busy,
  TakeInput, panel_view-agrees,
}
use expense_saas.Ui.{submit_button}
use expense_saas.ItemForm.Display.{item_form_view}
use expense_saas.Texts.{codes, string, prepend_digits}
use expense_saas.Types.{draft}
use expense_saas.Prelude.{none, some, true, false, [], ◌∷◌, ◌||◌, ◌&&◌, not, ◌≡◌, refl}
use expense_saas.ItemForm.{ItemFormValues, whole, new_form}
use expense_saas.ItemPanel.AddMode.{World, created, refused, uploaded, handle_add_mode_submit}
use expense_saas.ItemPanel.AddMode.Counts.{after_submits}
use expense_saas.ItemPanel.AddMode.Loop.{NeverAborts}
use expense_saas.ItemPanel.{
  Panel, add, is_dirty, close_attempt, discard, closed, step, apply_all, can_modify, form_mode,
  is_save_disabled,
}
use expense_saas.ItemPanel.Closing.{
  closes, cancels, is_consent, is_abort, has, step-closes_dirty, step-closed,
}
use expense_saas.ItemPanel.Saved.{apply_all-saved}

abbrev lunch : ItemFormValues
lunch = record {
  expense_date = b'd' ∷ [];
  amount = whole 900;
  category_id = b'c' ∷ [];
  description = b'l' ∷ [];
}

-- A new item with one file, not saved yet.
abbrev typed : Panel
typed = record {
  mode = add;
  is_form_dirty = true;
  pending_files = record { identity = 7 } ∷ [];
  attachment_reset_key = 0;
  is_discard_dialog_open = false;
  is_sequential_uploading = false;
  has_controller = false;
  item_api_error = none;
  abort_toast = none;
}

abbrev asked : Panel
asked = record typed { is_discard_dialog_open = true }

abbrev online : World
online = record { creation = created "item-1"; is_aborted = λ _. false; post = λ _. uploaded }

abbrev offline : World
offline = record online { creation = refused (some "down") }

online-NeverAborts : NeverAborts online "item-1"
online-NeverAborts = record { creation = refl; signal = λ i. refl; post = λ i e. cc }

first_asks : step close_attempt typed ≡ (asked, [])
unfolding step
first_asks = refl

closed_by_discard : closes discard asked ≡ true
unfolding step
closed_by_discard = refl

nothing_sent : after_submits (handle_add_mode_submit offline lunch typed.pending_files) ≡ 0
unfolding after_submits handle_add_mode_submit
nothing_sent = refl

step-closes_dirty_example :
    ((is_consent discard && asked.is_discard_dialog_open) || asked.is_sequential_uploading) ≡ true
step-closes_dirty_example = step-closes_dirty discard asked closed_by_discard refl

step-closed_example :
    ((cancels discard asked || asked.is_sequential_uploading) ≡ true)
    × (asked.has_controller
          && asked.is_sequential_uploading
          && not (has is_abort (step discard asked).1)
        ≡ false)
    × (is_dirty (step closed (step discard asked).0).0 ≡ false)
step-closed_example = step-closed discard asked closed_by_discard

apply_all-saved_example :
    (is_dirty (apply_all (handle_add_mode_submit online lunch typed.pending_files) typed) ≡ false)
    × ((apply_all (handle_add_mode_submit online lunch typed.pending_files) typed).pending_files
        ≡ [])
    × ((apply_all
          (handle_add_mode_submit online lunch typed.pending_files)
          typed).is_sequential_uploading
        ≡ false)
    × ((apply_all (handle_add_mode_submit online lunch typed.pending_files) typed).has_controller
        ≡ false)
apply_all-saved_example = apply_all-saved online lunch "item-1" typed online-NeverAborts refl

-- The panel while the files of a save are on their way.
abbrev inputs : PanelInputs
inputs = record {
  is_open = true;
  is_owner = true;
  report_status = draft;
  item_id = none;
  categories = [];
  api_error = none;
  busy = record {
    is_pending = false;
    is_creating = false;
    is_uploading = false;
    is_deleting = false;
  };
  completed = 1;
  total = 2;
  errors = λ _. none;
  category_value = "";
}

abbrev sending : Panel
sending = record typed { is_sequential_uploading = true }

progress_shown :
    (panel_view inputs sending new_form).form.save
    ≡ some (record { label = codes "アップロード中... (1/2 件完了)"; is_disabled = true; is_busy = true })
unfolding panel_view form_inputs item_form_view sequential_progress_label string prepend_digits
    submit_button form_mode can_modify is_save_disabled
progress_shown = refl

panel_view-agrees_example :
    (offers (panel_view inputs sending new_form).form.save ≡ can_modify true draft add)
    × (offers (panel_view inputs sending new_form).form.save_and_continue
        ≡ can_modify true draft add && true)
    × ((panel_view inputs sending new_form).form.has_cancel ≡ can_modify true draft add)
    × ((panel_view inputs sending new_form).attachments_can_modify ≡ can_modify true draft add)
    × TakeInput
        (panel_view inputs sending new_form).form
        (can_modify true draft add && false && true)
    × (takes_press (panel_view inputs sending new_form).form.save
        ≡ can_modify true draft add && not (is_save_disabled inputs.busy sending))
    × (takes_press (panel_view inputs sending new_form).form.save_and_continue
        ≡ can_modify true draft add && true && not (is_save_disabled inputs.busy sending))
    × (is_busy (panel_view inputs sending new_form).form.save
          && takes_press (panel_view inputs sending new_form).form.save
        ≡ false)
panel_view-agrees_example = panel_view-agrees inputs sending new_form
