-- ===== src/ItemForm/Display.antt =====
-- frontend/src/pages/reports/ItemForm.tsx: what the form shows in each mode.
use expense_saas.Prelude.{
  String, Option, none, some, Bool, true, false, List, ◌||◌, ◌&&◌, not, if◌then◌else◌,
}
use expense_saas.Texts.{Chars, codes, or_else}
use expense_saas.Types.{Severity}
use expense_saas.ItemForm.{Field, expense_date, amount, category_id, description, ItemForm}
use expense_saas.ItemPanel.{PanelMode, add, view}
use expense_saas.Ui.{
  Button, FieldView, SelectView, submit_button, app_text_field, app_select, form_alert,
}

-- The props that decide on the display. What React Hook Form holds is given: the messages at the
-- fields and the value of the category.
pub record FormInputs : Type 0 where
  pub mode : PanelMode
  pub has_save_and_continue : Bool
  pub categories : List (String × String)
  pub api_error : Option String
  pub is_pending : Bool
  pub is_save_disabled : Option Bool
  pub is_save_button_loading : Option Bool
  pub save_button_label : Option Chars
  pub read_only : Bool
  pub errors : Field → Option String
  pub category_value : String

pub record FormView : Type 0 where
  pub alert : Option (Severity × String)
  pub date : FieldView
  pub amount : FieldView
  pub category : SelectView
  pub description : FieldView
  pub save : Option Button
  pub save_and_continue : Option Button
  pub has_cancel : Bool
  pub asks_about_period : Bool

abbrev pub is_view_mode : PanelMode → Bool
is_view_mode view = true
is_view_mode _ = false

abbrev pub is_add_mode : PanelMode → Bool
is_add_mode add = true
is_add_mode _ = false

unfoldable pub item_form_view : FormInputs → ItemForm → FormView
unfolding submit_button app_text_field app_select form_alert
item_form_view p s =
    let is_view = is_view_mode p.mode in
    let is_read_only = is_view || p.read_only in
    let is_disabled = p.is_pending && not is_read_only in
    let save_disabled = or_else p.is_save_disabled p.is_pending in
    let save_and_continue : Button = record {
      label = codes "保存して続けて追加";
      is_disabled = save_disabled;
      is_busy = false;
    } in
    record {
      alert = form_alert p.api_error none;
      date = app_text_field "日付" true is_read_only is_disabled (p.errors expense_date) none;
      amount = app_text_field "金額" true is_read_only is_disabled (p.errors amount) none;
      category = app_select (record {
        label = "カテゴリ";
        options = p.categories;
        value = p.category_value;
        placeholder = none;
        error_message = p.errors category_id;
        required = true;
        disabled = is_disabled;
        read_only = is_read_only;
      });
      description = app_text_field "摘要" true is_read_only is_disabled (p.errors description) none;
      save =
          if is_view
          then none
          else some (
              submit_button (or_else p.save_button_label (codes "保存する"))
                (or_else p.is_save_button_loading p.is_pending) save_disabled);
      save_and_continue =
          if not is_view && is_add_mode p.mode && p.has_save_and_continue
          then some save_and_continue
          else none;
      has_cancel = not is_view;
      asks_about_period = s.warning_open;
    }
