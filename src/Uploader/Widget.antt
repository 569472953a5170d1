-- ===== src/Uploader/Widget.antt =====
-- frontend/src/pages/reports/AttachmentUploader.tsx: the whole component, in both modes, with the
-- hook useUploadAttachment that it holds.
pub mod Reports
pub mod Files
pub mod Handlers
pub mod Runs
pub mod Display
mod Tests
use expense_saas.Prelude.{
  ℕ, zero, suc, String, Option, none, some, Bool, true, false, List, [], ◌∷◌, ◌++◌, ◌==◌, ◌||◌,
  ◌&&◌, not, ltb, if◌then◌else◌,
}
use expense_saas.AttachmentArea.{Outcome, done, aborted, unknown, failed}
use expense_saas.Upload.{Upload, mutate, cancel, unmount, settle, new_upload}
use expense_saas.Uploader.{
  File, Uploader, validate_file, at, get, handle_file, handle_pending_file_remove, revoke_all,
}
use expense_saas.Uploader

pub data Mode : Type 0 where
  add edit view : Mode

pub record Widget : Type 0 where
  pub mode : Mode
  pub item_id : Option String
  -- the check of the last file, and the files that wait in the mode 'add'
  pub uploader : Uploader
  pub is_drag_over : Bool
  -- the hook; its uploads are numbered
  pub upload : Upload
  pub is_mounted : Bool

-- What the component calls, of its parent, of the hook and of the browser.
pub data Call : Type 0 where
  on_pending_file_added : (file : File) → Call
  on_pending_files_change : (files : List File) → Call
  on_pending_file_added_success on_pending_file_removed : Call
  on_uploading_change : Bool → Call
  post_file : (item_id : String) (file : File) → Call
  on_upload_success on_upload_aborted : Call
  on_upload_error : (message : String) → Call
  open_window : (url : ℕ) → Call
  warn_blocked reset_input : Call

-- `isPending` of the mutation, which is about the last upload.
unfoldable pub is_pending : Upload → Bool
is_pending u = elim u.started [ zero ↦ false | suc k ↦ not (u.is_settled k) ]

abbrev pub is_add : Mode → Bool
is_add add = true
is_add edit = false
is_add view = false

unfoldable pub is_uploading : Widget → Bool
unfolding is_pending
is_uploading w = not (is_add w.mode) && is_pending w.upload

-- The effect behind a change of pendingFiles.length: a list that is empty has no URLs.
unfoldable pub clear_when_empty : Uploader → Uploader
unfolding revoke_all
clear_when_empty s = elim s.pending_files [
  | [] ↦ record s { urls = []; browser = revoke_all s.urls s.browser }
  | f ∷ fs ↦ s
]

-- A file that has passed the check, in the mode 'add'; the parent is told of the new list by an effect.
unfoldable pub keep_file : File → Widget → Widget × List Call
unfolding handle_file
keep_file f w =
    let kept = handle_file f w.uploader in
    (
      record w { uploader = kept },
      on_pending_file_added f
          ∷ on_pending_file_added_success
          ∷ on_pending_files_change kept.pending_files
          ∷ [],
    )

-- The same in the mode 'edit'.
unfoldable pub send_file : File → Widget → Widget × List Call
unfolding mutate
send_file f w =
    let cleared = record w { uploader = record w.uploader { validation_error = none } } in
    elim w.item_id [
      | none ↦ (cleared, [])
      | some id ↦ (
        record cleared { upload = mutate w.upload },
        on_uploading_change true ∷ post_file id f ∷ [],
      )
    ]

-- handleFile
unfoldable pub take_file : File → Widget → Widget × List Call
unfolding validate_file keep_file send_file
take_file f w = elim (validate_file f) [
  | some e ↦ (record w { uploader = record w.uploader { validation_error = some e } }, [])
  | none ↦ elim w.mode [ add ↦ keep_file f w | edit ↦ send_file f w | view ↦ send_file f w ]
]

-- handlePendingFileRemove, and the effects behind the new list.
unfoldable pub take_out_file : (index : ℕ) → Widget → Widget × List Call
unfolding handle_pending_file_remove clear_when_empty
take_out_file n w =
    let left = handle_pending_file_remove n w.uploader in
    (
      record w { uploader = clear_when_empty left },
      on_pending_file_removed ∷ on_pending_files_change left.pending_files ∷ [],
    )

-- handlePendingFilePreview of the file in a row; the browser may block the new window.
unfoldable pub preview_file : (index : ℕ) (is_blocked : Bool) → Widget → List Call
unfolding at get
preview_file n is_blocked w = elim (at n w.uploader.pending_files) [
  | none ↦ []
  | some f ↦ elim (get f.identity w.uploader.urls) [
    | none ↦ []
    | some u ↦ open_window u ∷ (if is_blocked then warn_blocked ∷ [] else [])
  ]
]

-- handleChange; the choice may have been given up. The input is disabled during an upload.
unfoldable pub handle_change : Option File → Widget → Widget × List Call
unfolding take_file
handle_change none w = (w, [])
handle_change (some f) w = let taken = take_file f w in (taken.0, taken.1 ++ reset_input ∷ [])

-- handleDragOver
unfoldable pub handle_drag_over : Widget → Widget
unfolding is_uploading
handle_drag_over w = if is_uploading w then w else record w { is_drag_over = true }

-- handleDragLeave; the pointer may have gone to a part of the zone.
unfoldable pub handle_drag_leave : (is_inside : Bool) → Widget → Widget
handle_drag_leave is_inside w = if is_inside then w else record w { is_drag_over = false }

-- handleDrop; what is dropped may be no file.
unfoldable pub handle_drop : Option File → Widget → Widget × List Call
unfolding is_uploading take_file
handle_drop dropped w =
    let left = record w { is_drag_over = false } in
    if is_uploading w
    then (left, [])
    else elim dropped [ none ↦ (left, []) | some f ↦ take_file f left ]

-- onSuccess and onError, which are called as long as the component is there.
unfoldable pub report : Outcome → List Call
report done = on_uploading_change false ∷ on_upload_success ∷ []
report aborted = on_uploading_change false ∷ on_upload_aborted ∷ []
report (failed m) = on_uploading_change false ∷ on_upload_error m ∷ []
report unknown = on_uploading_change false ∷ on_upload_error "ファイルのアップロードに失敗しました" ∷ []

-- Upload number `k` ends: onSettled of the hook, then the callbacks of the last call of mutate.
unfoldable pub upload_ends : (k : ℕ) → Outcome → Widget → Widget × List Call
unfolding settle report
upload_ends k o w = if w.upload.is_settled k || not (ltb k w.upload.started) then (w, []) else (
  record w { upload = settle k w.upload },
  if w.is_mounted && suc k == w.upload.started then report o else [],
)

-- The cleanups: that of the hook, and that of the URLs.
unfoldable pub end_widget : Widget → Widget × List Call
unfolding unmount Uploader.unmount
end_widget w = (
  record w {
    is_mounted = false;
    uploader = Uploader.unmount w.uploader;
    upload = unmount w.upload;
  },
  elim w.upload.controller [ none ↦ [] | some k ↦ on_upload_aborted ∷ [] ],
)

pub data Event : Type 0 where
  change drop : (file : Option File) → Event
  drag_over : Event
  drag_leave : (is_inside : Bool) → Event
  take_out : (index : ℕ) → Event
  preview : (index : ℕ) (is_blocked : Bool) → Event
  -- the panel calls cancelRef.current
  stop : Event
  answer : (k : ℕ) → Outcome → Event
  ended : Event

-- What a component that is on the screen does.
unfoldable pub live_step : Event → Widget → Widget × List Call
unfolding is_uploading handle_change handle_drop handle_drag_over handle_drag_leave take_out_file
    preview_file cancel end_widget upload_ends
live_step (change file) w = if is_uploading w then (w, []) else handle_change file w
live_step (drop file) w = handle_drop file w
live_step drag_over w = (handle_drag_over w, [])
live_step (drag_leave is_inside) w = (handle_drag_leave is_inside w, [])
live_step (take_out n) w = if is_add w.mode then take_out_file n w else (w, [])
live_step (preview n is_blocked) w = (w, preview_file n is_blocked w)
live_step stop w = (record w { upload = cancel w.upload }, [])
live_step (answer k o) w = upload_ends k o w
live_step ended w = end_widget w

-- Behind its end only the answers of the server arrive.
unfoldable pub step : Event → Widget → Widget × List Call
unfolding live_step upload_ends
step (answer k o) w = upload_ends k o w
step e w = if w.is_mounted then live_step e w else (w, [])

unfoldable pub run : List Event → Widget → Widget × List Call
run [] w = (w, [])
run (e ∷ es) w = let now = step e w in let later = run es now.0 in (later.0, now.1 ++ later.1)

-- The component when it appears. Its effect tells the parent of the empty list, which it has already.
unfoldable pub new_widget : Mode → (item_id : Option String) → Uploader → Widget
unfolding new_upload
new_widget mode item_id empty = record {
  mode = mode;
  item_id = item_id;
  uploader = empty;
  is_drag_over = false;
  upload = new_upload;
  is_mounted = true;
}
