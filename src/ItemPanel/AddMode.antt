-- ===== src/ItemPanel/AddMode.antt =====
-- frontend/src/pages/reports/ItemSlidePanel.tsx: handleAddModeSubmit. What the server answers and
-- when the user aborts is the `World`; the run is the list of what it does, in order.
pub mod Counts
pub mod Loop
pub mod Uploads
mod Tests
use expense_saas.Prelude.{
  ℕ, suc, String, Option, none, some, Bool, true, false, List, [], ◌∷◌, ◌++◌, ◌==◌, length,
}
use expense_saas.ItemForm.{ItemFormValues}

-- A file of the browser, by its identity.
pub record File : Type 0 where
  pub identity : ℕ

-- How createItemMutation.mutateAsync ends; what it throws may not be an Error.
pub data Creation : Type 0 where
  created : (id : String) → Creation
  refused : (error : Option String) → Creation

-- How api.post ends.
pub data Upload : Type 0 where
  uploaded failed aborted : Upload

pub record World : Type 0 where
  pub creation : Creation
  -- `signal.aborted` as the loop reads it before file number `i`
  pub is_aborted : (i : ℕ) → Bool
  pub post : (i : ℕ) → Upload

-- The toast of the panel; a warning begins with the number of files that failed.
pub data ApiToast : Type 0 where
  success : (message : String) → ApiToast
  warning : (failed_count : ℕ) (message : String) → ApiToast

pub data Effect : Type 0 where
  set_item_api_error : Option String → Effect
  create_item : ItemFormValues → Effect
  post_attachment : (item_id : String) (file : File) → Effect
  set_is_sequential_uploading : Bool → Effect
  set_progress : (completed total : ℕ) → Effect
  set_abort_toast : (message : String) → Effect
  set_api_toast : ApiToast → Effect
  invalidate_detail reset_dirty_state after_submit : Effect
  -- `sequentialAbortControllerRef.current` is set, and released
  take_controller release_controller : Effect

-- The two ways out of the loop by an abort.
unfoldable pub stop : List Effect
stop = set_abort_toast "アップロードを中止しました" ∷ set_is_sequential_uploading false ∷ []

unfoldable pub succeed : List Effect
succeed =
    set_api_toast (success "明細を追加しました") ∷ invalidate_detail ∷ reset_dirty_state ∷ after_submit ∷ []

-- Some files failed: the rest waits until the toast is rendered (pendingPostToastActionRef).
unfoldable pub warn : (failed_count : ℕ) → List Effect
warn n =
    set_api_toast (warning n " 件の添付ファイルがアップロードに失敗しました。再試行してください")
    ∷ reset_dirty_state
    ∷ after_submit
    ∷ invalidate_detail
    ∷ []

unfoldable pub finish : (failed_count : ℕ) → List Effect
unfolding succeed warn
finish n = set_is_sequential_uploading false ∷ (elim (n == 0) [ true ↦ succeed | false ↦ warn n ])

-- The loop over the files from number `i` on.
unfoldable pub upload_from :
    World → (item_id : String) (total i failed_count : ℕ) (files : List File) → List Effect
unfolding stop finish
upload_from w item total i n [] = finish n
upload_from w item total i n (file ∷ files) = elim (w.is_aborted i) [
  | true ↦ stop
  | false ↦ post_attachment item file ∷ (elim (w.post i) [
    | uploaded ↦ set_progress (suc i) total ∷ upload_from w item total (suc i) n files
    | failed ↦ upload_from w item total (suc i) (suc n) files
    | aborted ↦ stop
  ])
]

unfoldable pub upload_all : World → (item_id : String) (pending_files : List File) → List Effect
unfolding upload_from succeed
upload_all w item [] = succeed
upload_all w item (file ∷ files) =
    let all_files = file ∷ files in
    set_is_sequential_uploading true
    ∷ set_progress 0 (length all_files)
    ∷ upload_from w item (length all_files) 0 0 all_files

abbrev pub error_message : Option String → String
error_message none = "明細の保存に失敗しました"
error_message (some message) = message

abbrev pub after_creation : World → Creation → (pending_files : List File) → List Effect
after_creation w (refused error) files = set_item_api_error (some (error_message error)) ∷ []
after_creation w (created id) files = upload_all w id files

-- handleAddModeSubmit
unfoldable pub handle_add_mode_submit :
    World → ItemFormValues → (pending_files : List File) → List Effect
unfolding upload_all
handle_add_mode_submit w values files =
    set_item_api_error none
    ∷ take_controller
    ∷ create_item values
    ∷ (after_creation w w.creation files ++ release_controller ∷ [])
