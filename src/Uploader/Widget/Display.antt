-- ===== src/Uploader/Widget/Display.antt =====
-- AttachmentUploader.tsx: the rows of the files that wait, the zone, the button and the message.
use expense_saas.Prelude.{
  String, Option, Bool, true, false, List, [], ◌∷◌, ◌≡◌, map, arith, if◌then◌else◌, ◌∙◌, sym,
}
use expense_saas.Texts.{Chars}
use expense_saas.AttachmentList.{format_file_size}
use expense_saas.Uploader.{File, Uploader}
use expense_saas.Uploader.Widget.{
  Widget, edit, is_uploading, is_add, is_pending, Event, run, new_widget,
}
use expense_saas.Uploader.Widget.Reports.{told}
use expense_saas.Uploader.Widget.Runs.{new_widget-After, run-mode}

-- A file that waits, with its size as a text; its name is that of the file.
pub record PendingRow : Type 0 where
  pub file : File
  pub size : Chars

pub record WidgetView : Type 0 where
  pub pending_rows : List PendingRow
  pub is_zone_highlighted : Bool
  pub button_label : String
  pub is_button_disabled : Bool
  pub is_input_disabled : Bool
  pub accepted : List String
  pub hint : String
  pub alert : Option String

abbrev pending_row : File → PendingRow
pending_row f = record { file = f; size = format_file_size f.size }

unfoldable pub attachment_uploader : Widget → WidgetView
unfolding is_uploading format_file_size
attachment_uploader w = record {
  pending_rows = if is_add w.mode then map pending_row w.uploader.pending_files else [];
  is_zone_highlighted = w.is_drag_over;
  button_label = if is_uploading w then "アップロード中..." else "ファイルを追加";
  is_button_disabled = is_uploading w;
  is_input_disabled = is_uploading w;
  accepted = "image/jpeg" ∷ "image/png" ∷ "application/pdf" ∷ [];
  hint = "対応形式: JPEG, PNG, PDF（最大 5MB）";
  alert = w.uploader.validation_error;
}

-- In the mode 'edit', as long as the component is on the screen: its button and its input are
-- disabled exactly while the parent, which locks its own save button then, was told last that an
-- upload is under way.
run-button_locked :
    (id : Option String) (s : Uploader) (es : List Event)
    → let r = run es (new_widget edit id s) in
      r.0.is_mounted ≡ true
      → ((attachment_uploader r.0).is_button_disabled ≡ told false r.1)
        × ((attachment_uploader r.0).is_input_disabled ≡ told false r.1)
unfolding attachment_uploader is_uploading new_widget
run-button_locked id s es m =
    let r = run es (new_widget edit id s) in
    let flag = (new_widget-After edit id s es).flag m in
    let mode : r.0.mode ≡ edit = run-mode es (new_widget edit id s) in
    let same : is_uploading r.0 ≡ is_pending r.0.upload = ground (arith, mode) in
    (same ∙ sym flag, same ∙ sym flag)
