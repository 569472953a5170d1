-- ===== src/AttachmentArea/Tests.antt =====
-- A deletion that is asked for and confirmed.
use expense_saas.AttachmentList.Display.{Attachment, attachment_list, attachment_item_row}
use expense_saas.AttachmentList.{is_disabled}
use expense_saas.AttachmentArea.Display.{disabled_keys, rows_of, attachment_area_content}
use expense_saas.Prelude.{none, some, false, List, [], ◌∷◌, ◌≡◌, refl, true}
use expense_saas.ItemPanel.{Panel, edit}
use expense_saas.AttachmentArea.{Event, press_delete, confirm, step, run, new_area}

abbrev events : List Event
events = press_delete "a" ∷ confirm ∷ []

abbrev panel : Panel
panel = record {
  mode = edit;
  is_form_dirty = false;
  pending_files = [];
  attachment_reset_key = 0;
  is_discard_dialog_open = false;
  is_sequential_uploading = false;
  has_controller = false;
  item_api_error = none;
  abort_toast = none;
}

under_way : (run events new_area).0.delete_pending ≡ some "a"
unfolding run step new_area
under_way = refl

abbrev receipt : Attachment
receipt = record {
  id = "a";
  item_id = "i";
  file_name = "r.png";
  file_size = 2048;
  mime_type = "image/png";
  created_at = "";
}

greyed :
    disabled_keys
      (rows_of (attachment_area_content true (some (receipt ∷ [])) (run events new_area).0).list)
    ≡ ("a", true) ∷ []
unfolding run step new_area attachment_area_content attachment_list attachment_item_row is_disabled
greyed = refl
