-- ===== src/AttachmentArea.antt =====
-- frontend/src/pages/reports/AttachmentArea.tsx, AttachmentAreaContent, with handleFile of
-- AttachmentUploader.tsx in the mode 'edit': the attachments of an item that exists, as long as they are on the screen.
pub mod Flags
pub mod Display
pub mod AddMode
mod Tests
use expense_saas.Prelude.{
  String, Option, none, some, Bool, true, false, List, [], ◌∷◌, ◌++◌, ◌&&◌, if◌then◌else◌,
}
use expense_saas.Types.{Severity, success, error}
use expense_saas.Uploader.{File, validate_file}

-- How a request ends: AbortError, another Error, or a value that is no Error.
pub data Outcome : Type 0 where
  done aborted unknown : Outcome
  failed : (message : String) → Outcome

pub record Area : Type 0 where
  pub deleting_id : Option String
  pub confirm_target_id : Option String
  pub validation_error : Option String
  pub toast : Option (Severity × String)
  -- what onUploadingChange and onDeletingChange told the panel last
  pub told_uploading : Bool
  pub told_deleting : Bool
  -- `isPending` of the two mutations; a deletion with its attachment
  pub upload_pending : Bool
  pub delete_pending : Option String

-- What is asked of the server and of the panel.
pub data Request : Type 0 where
  upload : (file : File) → Request
  delete : (attachment_id : String) → Request
  on_upload_aborted on_delete_aborted : Request

abbrev pub is_some {ℓ} : {A : Type ℓ} → Option A → Bool
is_some none = false
is_some (some _) = true

-- handleFile; the button and the drop zone take no file while an upload is pending.
unfoldable pub handle_file : File → Area → Area × List Request
handle_file f s = if s.upload_pending then (s, []) else elim (validate_file f) [
  | some e ↦ (record s { validation_error = some e }, [])
  | none ↦ (
    record s { validation_error = none; told_uploading = true; upload_pending = true },
    upload f ∷ [],
  )
]

-- onSuccess and onError of the upload, with handleUploadSuccess and handleUploadAborted.
unfoldable pub upload_ends : Outcome → Area → Area × List Request
upload_ends outcome s =
    let idle = record s { told_uploading = false; upload_pending = false } in
    elim outcome [
      | done ↦ (record idle { toast = some (success, "ファイルをアップロードしました") }, [])
      | aborted ↦ (idle, on_upload_aborted ∷ [])
      | failed m ↦ (record idle { toast = some (error, m) }, [])
      | unknown ↦ (record idle { toast = some (error, "ファイルのアップロードに失敗しました") }, [])
    ]

-- handleDeleteRequest
unfoldable pub handle_delete_request : String → Area → Area
handle_delete_request id s = record s { confirm_target_id = some id }

-- handleConfirmDelete; the button of the dialog is disabled while a deletion is pending.
unfoldable pub handle_confirm_delete : Area → Area × List Request
handle_confirm_delete s = elim s.confirm_target_id [
  | none ↦ (s, [])
  | some id ↦ if is_some s.delete_pending then (s, []) else (
    record s {
      confirm_target_id = none;
      deleting_id = some id;
      told_deleting = true;
      delete_pending = some id;
    },
    delete id ∷ [],
  )
]

-- onSuccess and onError of the deletion.
unfoldable pub delete_ends : Outcome → Area → Area × List Request
delete_ends outcome s =
    let idle = record s { deleting_id = none; told_deleting = false; delete_pending = none } in
    elim outcome [
      | done ↦ (record idle { toast = some (success, "添付ファイルを削除しました") }, [])
      | aborted ↦ (idle, on_delete_aborted ∷ [])
      | failed m ↦ (record idle { toast = some (error, m) }, [])
      | unknown ↦ (record idle { toast = some (error, "添付ファイルの削除に失敗しました") }, [])
    ]

-- handleCancelDelete, which the dialog offers while no deletion is pending.
unfoldable pub handle_cancel_delete : Area → Area
handle_cancel_delete s =
    if is_some s.delete_pending then s else record s { confirm_target_id = none }

pub data Event : Type 0 where
  choose : (file : File) → Event
  press_delete : (attachment_id : String) → Event
  confirm cancel : Event
  upload_answer delete_answer : Outcome → Event

unfoldable pub step : Event → Area → Area × List Request
unfolding handle_file handle_delete_request handle_confirm_delete handle_cancel_delete upload_ends
    delete_ends
step (choose f) s = handle_file f s
step (press_delete id) s = (handle_delete_request id s, [])
step confirm s = handle_confirm_delete s
step cancel s = (handle_cancel_delete s, [])
step (upload_answer o) s = if s.upload_pending then upload_ends o s else (s, [])
step (delete_answer o) s = if is_some s.delete_pending then delete_ends o s else (s, [])

unfoldable pub run : List Event → Area → Area × List Request
run [] s = (s, [])
run (e ∷ es) s = let now = step e s in let later = run es now.0 in (later.0, now.1 ++ later.1)

unfoldable pub new_area : Area
new_area = record {
  deleting_id = none;
  confirm_target_id = none;
  validation_error = none;
  toast = none;
  told_uploading = false;
  told_deleting = false;
  upload_pending = false;
  delete_pending = none;
}
