-- ===== src/ItemPanel/Display.antt =====
-- frontend/src/pages/reports/ItemSlidePanel.tsx: what the panel shows, with the form and the area of
-- the attachments in it, and when leaving the page is warned of.
use expense_saas.Prelude.{
  ℕ, String, Option, none, some, Bool, true, false, List, [], ◌++◌, ◌||◌, ◌&&◌, not, if◌then◌else◌,
  ◌≡◌, arith,
}
use expense_saas.Texts.{Chars, codes, given, string}
use expense_saas.Types.{ReportStatus}
use expense_saas.ItemForm.{Field, ItemForm}
use expense_saas.ItemForm.Display.{FormInputs, FormView, item_form_view, is_add_mode}
use expense_saas.ItemPanel.{
  Panel, PanelMode, add, edit, view, Busy, is_dirty, can_modify, form_mode, is_save_disabled,
}
use expense_saas.Ui.{Button, FieldView}

-- The props and hooks that decide on the display.
pub record PanelInputs : Type 0 where
  pub is_open : Bool
  pub is_owner : Bool
  pub report_status : ReportStatus
  pub item_id : Option String
  pub categories : List (String × String)
  pub api_error : Option String
  pub busy : Busy
  pub completed : ℕ
  pub total : ℕ
  pub errors : Field → Option String
  pub category_value : String

pub record PanelView : Type 0 where
  pub title : String
  pub is_open : Bool
  pub form : FormView
  pub attachment_mode : PanelMode
  pub attachment_item : Option String
  pub attachments_can_modify : Bool
  pub attachment_key : ℕ
  pub asks_to_discard : Bool
  -- the listener of `beforeunload`
  pub warns_on_leave : Bool

abbrev title_of : PanelMode → String
title_of add = "明細追加"
title_of edit = "明細編集"
title_of view = "明細詳細"

-- sequentialProgressLabel
unfoldable pub sequential_progress_label : (is_uploading : Bool) (completed total : ℕ) → Chars
unfolding string
sequential_progress_label is_uploading completed total =
    if is_uploading
    then codes "アップロード中... ("
      ++ (string completed ++ (codes "/" ++ (string total ++ codes " 件完了)")))
    else []

abbrev or_other : Option String → Option String → Option String
or_other none other = other
or_other (some m) other = some m

-- The props that the panel gives to its form.
unfoldable pub form_inputs : PanelInputs → Panel → FormInputs
unfolding form_mode is_save_disabled sequential_progress_label
form_inputs i p = record {
  mode = form_mode i.is_owner i.report_status p.mode;
  has_save_and_continue = is_add_mode p.mode;
  categories = i.categories;
  api_error = or_other p.item_api_error i.api_error;
  is_pending = i.busy.is_pending;
  is_save_disabled = some (is_save_disabled i.busy p);
  is_save_button_loading =
      some (p.is_sequential_uploading || i.busy.is_pending || i.busy.is_creating);
  save_button_label =
      given (sequential_progress_label p.is_sequential_uploading i.completed i.total);
  read_only = p.is_sequential_uploading;
  errors = i.errors;
  category_value = i.category_value;
}

unfoldable pub panel_view : PanelInputs → Panel → ItemForm → PanelView
unfolding can_modify form_inputs item_form_view
panel_view i p s = record {
  title = title_of p.mode;
  is_open = i.is_open;
  form = item_form_view (form_inputs i p) s;
  attachment_mode = p.mode;
  attachment_item = i.item_id;
  attachments_can_modify = can_modify i.is_owner i.report_status p.mode;
  attachment_key = p.attachment_reset_key;
  asks_to_discard = p.is_discard_dialog_open;
  warns_on_leave = is_dirty p;
}

abbrev pub offers : Option Button → Bool
offers none = false
offers (some b) = true

abbrev pub takes_press : Option Button → Bool
takes_press none = false
takes_press (some b) = not b.is_disabled

abbrev pub is_busy : Option Button → Bool
is_busy none = false
is_busy (some b) = b.is_busy

-- Each field of the form takes input exactly if `b`.
abbrev takes_input : FieldView → Bool
takes_input f = not f.is_read_only && not f.is_disabled

abbrev pub TakeInput : FormView → Bool → Type 0
TakeInput f b =
    (takes_input f.date ≡ b)
    × (takes_input f.amount ≡ b)
    × (takes_input f.category.field ≡ b)
    × (takes_input f.description ≡ b)

-- The form and the attachments agree on whether the item may be changed: there are save buttons and
-- an area that takes files exactly if the user owns the report, it is a draft and the panel is not
-- for viewing; each of the four fields takes input exactly if moreover neither the files of a save are on
-- their way nor the form waits for an answer; the save button can be pressed exactly if nothing is
-- under way, and is never busy while it can be pressed.
pub panel_view-agrees :
    (i : PanelInputs) (p : Panel) (s : ItemForm)
    → let v = panel_view i p s in
      let may = can_modify i.is_owner i.report_status p.mode in
      (offers v.form.save ≡ may)
      × (offers v.form.save_and_continue ≡ may && is_add_mode p.mode)
      × (v.form.has_cancel ≡ may)
      × (v.attachments_can_modify ≡ may)
      × TakeInput v.form (may && not p.is_sequential_uploading && not i.busy.is_pending)
      × (takes_press v.form.save ≡ may && not (is_save_disabled i.busy p))
      × (takes_press v.form.save_and_continue
          ≡ may && is_add_mode p.mode && not (is_save_disabled i.busy p))
      × (is_busy v.form.save && takes_press v.form.save ≡ false)
unfolding panel_view form_inputs item_form_view form_mode can_modify is_save_disabled
panel_view-agrees i p s = ground arith
