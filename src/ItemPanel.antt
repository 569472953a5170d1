-- ===== src/ItemPanel.antt =====
-- frontend/src/pages/reports/ItemSlidePanel.tsx: the panel on one item, with its question before
-- unsaved input is thrown away. The saving of a new item is in the child AddMode.
pub mod AddMode
pub mod Closing
pub mod Display
pub mod Saved
mod Tests
use expense_saas.Prelude.{
  ℕ, suc, String, Option, some, Bool, true, false, List, [], ◌∷◌, ◌++◌, ◌==◌, ◌||◌, ◌&&◌, not,
  if◌then◌else◌,
}
use expense_saas.Types.{ReportStatus, draft}
use expense_saas.ItemPanel.AddMode.{
  File, Effect, set_item_api_error, set_is_sequential_uploading, set_abort_toast, reset_dirty_state,
  take_controller, release_controller,
}

pub data PanelMode : Type 0 where
  add edit view : PanelMode

pub record Panel : Type 0 where
  pub mode : PanelMode
  pub is_form_dirty : Bool
  pub pending_files : List File
  pub attachment_reset_key : ℕ
  pub is_discard_dialog_open : Bool
  pub is_sequential_uploading : Bool
  -- `sequentialAbortControllerRef.current` holds a controller
  pub has_controller : Bool
  pub item_api_error : Option String
  pub abort_toast : Option String

-- What the panel calls.
pub data Call : Type 0 where
  on_close cancel_upload cancel_delete abort_sequential reset_form : Call

abbrev has_files : List File → Bool
has_files [] = false
has_files (_ ∷ _) = true

abbrev is_dirty_in : PanelMode → Bool → List File → Bool
is_dirty_in add form files = form || has_files files
is_dirty_in _ form files = form

abbrev pub is_dirty : Panel → Bool
is_dirty p = is_dirty_in p.mode p.is_form_dirty p.pending_files

abbrev is_view : PanelMode → Bool
is_view view = true
is_view _ = false

abbrev is_draft : ReportStatus → Bool
is_draft draft = true
is_draft _ = false

-- canModify and formMode
unfoldable pub can_modify : (is_owner : Bool) → ReportStatus → PanelMode → Bool
can_modify is_owner status mode = is_owner && is_draft status && not (is_view mode)

unfoldable pub form_mode : (is_owner : Bool) → ReportStatus → PanelMode → PanelMode
unfolding can_modify
form_mode is_owner status mode = if can_modify is_owner status mode then mode else view

-- The flags that disable the save button.
pub record Busy : Type 0 where
  pub is_pending : Bool
  pub is_creating : Bool
  pub is_uploading : Bool
  pub is_deleting : Bool

unfoldable pub is_save_disabled : Busy → Panel → Bool
is_save_disabled b p =
    b.is_pending || b.is_creating || b.is_uploading || b.is_deleting || p.is_sequential_uploading

-- resetDirtyState; the form is set back as well, which is the call `reset_form`.
unfoldable pub reset_dirty : Panel → Panel
reset_dirty p = record p {
  is_form_dirty = false;
  pending_files = [];
  attachment_reset_key = suc p.attachment_reset_key;
}

-- abortSequentialUpload
unfoldable pub abort_sequential_upload : Panel → Panel × List Call
abort_sequential_upload p =
    if p.has_controller
    then (
      record p { has_controller = false; is_sequential_uploading = false },
      abort_sequential ∷ [],
    )
    else (p, [])

-- handleDiscard
unfoldable pub handle_discard : Panel → Panel × List Call
unfolding abort_sequential_upload
handle_discard p =
    let aborted = abort_sequential_upload p in
    (
      record aborted.0 {
        is_discard_dialog_open = false;
        is_form_dirty = false;
        pending_files = [];
        attachment_reset_key = suc p.attachment_reset_key;
      },
      cancel_upload ∷ cancel_delete ∷ (aborted.1 ++ reset_form ∷ on_close ∷ []),
    )

-- handleDiscardCancel
unfoldable pub handle_discard_cancel : Panel → Panel
handle_discard_cancel p = record p { is_discard_dialog_open = false }

-- handleCloseAttempt
unfoldable pub handle_close_attempt : Panel → Panel × List Call
unfolding abort_sequential_upload
handle_close_attempt p =
    let aborted = abort_sequential_upload p in
    if p.is_sequential_uploading
    then (record aborted.0 { abort_toast = some "アップロードを中止しました" }, aborted.1 ++ on_close ∷ [])
    else if is_dirty p
    then (record p { is_discard_dialog_open = true }, [])
    else (p, cancel_upload ∷ cancel_delete ∷ on_close ∷ [])

-- What reaches the panel. The two answers of the question need it on the screen.
pub data Event : Type 0 where
  dirty_change : Bool → Event
  pending_files_change : List File → Event
  upload_aborted delete_aborted : Event
  close_attempt discard discard_cancel : Event
  -- the effect behind a change of `open` to false
  closed : Event

abbrev files_change : PanelMode → List File → Panel → Panel
files_change add files p = record p { pending_files = files }
files_change _ files p = p

unfoldable pub step : Event → Panel → Panel × List Call
unfolding reset_dirty handle_discard handle_discard_cancel handle_close_attempt
step (dirty_change b) p = (record p { is_form_dirty = b }, [])
step (pending_files_change files) p = (files_change p.mode files p, [])
step upload_aborted p = (record p { abort_toast = some "アップロードを中止しました" }, [])
step delete_aborted p = (record p { abort_toast = some "削除を中止しました" }, [])
step close_attempt p = handle_close_attempt p
step discard p = if p.is_discard_dialog_open then handle_discard p else (p, [])
step discard_cancel p = if p.is_discard_dialog_open then (handle_discard_cancel p, []) else (p, [])
step closed p = (reset_dirty p, reset_form ∷ [])

-- What the effects of handleAddModeSubmit do to the panel.
unfoldable pub apply : Effect → Panel → Panel
unfolding reset_dirty
apply (set_item_api_error e) p = record p { item_api_error = e }
apply (set_is_sequential_uploading b) p = record p { is_sequential_uploading = b }
apply (set_abort_toast m) p = record p { abort_toast = some m }
apply reset_dirty_state p = reset_dirty p
apply take_controller p = record p { has_controller = true }
apply release_controller p = record p { has_controller = false }
apply _ p = p

unfoldable pub apply_all : List Effect → Panel → Panel
apply_all [] p = p
apply_all (e ∷ es) p = apply_all es (apply e p)
