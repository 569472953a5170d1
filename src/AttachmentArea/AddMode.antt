-- ===== src/AttachmentArea/AddMode.antt =====
-- frontend/src/pages/reports/AttachmentArea.tsx, AttachmentArea and AttachmentAreaAddMode: the files
-- of an item that does not exist yet, with the panel of ItemSlidePanel.tsx around them.
pub mod Waiting
pub mod Runs
mod Tests
use expense_saas.Prelude.{
  ℕ, String, Option, none, some, Bool, false, List, [], ◌∷◌, ◌==◌, if◌then◌else◌, map,
}
use expense_saas.Types.{Severity, success}
use expense_saas.ItemPanel.{
  Panel, PanelMode, add, edit, view, dirty_change, pending_files_change, close_attempt, discard,
  discard_cancel, closed, apply,
}
use expense_saas.ItemPanel
use expense_saas.ItemPanel.AddMode.{Effect}
use expense_saas.ItemPanel.AddMode
use expense_saas.Uploader.{File, Uploader, Browser}
use expense_saas.Uploader.Widget.{
  Widget, Call, on_pending_files_change, on_pending_file_added_success, on_pending_file_removed,
  handle_change, handle_drop, take_out_file, end_widget, new_widget,
}
use expense_saas.Uploader.Widget

-- What AttachmentArea renders; the component is a new one whenever its key changes.
pub data Shown : Type 0 where
  add_mode : (key : ℕ) → Shown
  nothing : Shown
  content : (key : String) → Shown

abbrev content_of : Option String → Shown
content_of none = nothing
content_of (some id) = content id

unfoldable pub attachment_area :
    (mode : Option PanelMode) (item_id : Option String) (add_mode_reset_key : ℕ) → Shown
attachment_area none item k = content_of item
attachment_area (some add) item k = add_mode k
attachment_area (some edit) item k = content_of item
attachment_area (some view) item k = content_of item

-- The panel on a new item, the uploader in it with its key, and the toast of AttachmentAreaAddMode.
pub record Entry : Type 0 where
  pub panel : Panel
  pub widget : Widget
  pub key : ℕ
  pub toast : Option (Severity × String)

-- The same object of the browser, as the panel keeps it.
abbrev pub panel_file : File → AddMode.File
panel_file f = record { identity = f.identity }

-- handlePendingFileAddedSuccess, handlePendingFileRemoved, and handlePendingFilesChange of the panel.
unfoldable pub hear : Call → Entry → Entry
unfolding ItemPanel.step
hear (on_pending_files_change files) s = record s {
  panel = (ItemPanel.step (pending_files_change (map panel_file files)) s.panel).0;
}
hear on_pending_file_added_success s = record s { toast = some (success, "ファイルをアップロードしました") }
hear on_pending_file_removed s = record s { toast = some (success, "添付ファイルを削除しました") }
hear _ s = s

unfoldable pub hear_all : List Call → Entry → Entry
hear_all [] s = s
hear_all (c ∷ cs) s = hear_all cs (hear c s)

abbrev pub empty_uploader : Browser → Uploader
empty_uploader b = record { validation_error = none; pending_files = []; urls = []; browser = b }

-- A new key: the old component ends, and the effect of the new one tells the panel of its empty list.
unfoldable pub mount_anew : Entry → Entry
unfolding end_widget new_widget hear
mount_anew s =
    let old = end_widget s.widget in
    hear (on_pending_files_change []) (record {
      panel = s.panel;
      widget = new_widget Widget.add none (empty_uploader old.0.uploader.browser);
      key = s.panel.attachment_reset_key;
      toast = none;
    })

unfoldable pub render : Entry → Entry
unfolding mount_anew
render s = if s.panel.attachment_reset_key == s.key then s else mount_anew s

pub data Event : Type 0 where
  choose put_down : (file : Option File) → Event
  take_out : (index : ℕ) → Event
  form_change : (is_dirty : Bool) → Event
  press_close press_discard press_keep panel_closed : Event
  -- one of the effects of a save
  saving : Effect → Event
  close_toast : Event

abbrev after_uploader : Widget × List Call → Entry → Entry
after_uploader r s = hear_all r.1 (record s { widget = r.0 })

abbrev with_panel : Panel → Entry → Entry
with_panel p s = render (record s { panel = p })

unfoldable pub step : Event → Entry → Entry
unfolding handle_change handle_drop take_out_file hear_all render ItemPanel.step apply
step (choose file) s = after_uploader (handle_change file s.widget) s
step (put_down file) s = after_uploader (handle_drop file s.widget) s
step (take_out n) s = after_uploader (take_out_file n s.widget) s
step (form_change b) s = with_panel (ItemPanel.step (dirty_change b) s.panel).0 s
step press_close s = with_panel (ItemPanel.step close_attempt s.panel).0 s
step press_discard s = with_panel (ItemPanel.step discard s.panel).0 s
step press_keep s = with_panel (ItemPanel.step discard_cancel s.panel).0 s
step panel_closed s = with_panel (ItemPanel.step closed s.panel).0 s
step (saving e) s = with_panel (apply e s.panel) s
step close_toast s = record s { toast = none }

unfoldable pub run : List Event → Entry → Entry
run [] s = s
run (e ∷ es) s = run es (step e s)

-- The panel when it is opened for a new item.
unfoldable pub new_entry : Entry
unfolding new_widget
new_entry = record {
  panel = record {
    mode = add;
    is_form_dirty = false;
    pending_files = [];
    attachment_reset_key = 0;
    is_discard_dialog_open = false;
    is_sequential_uploading = false;
    has_controller = false;
    item_api_error = none;
    abort_toast = none;
  };
  widget = new_widget Widget.add none (empty_uploader (record { created = 0; live = [] }));
  key = 0;
  toast = none;
}
