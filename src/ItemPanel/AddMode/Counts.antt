-- ===== src/ItemPanel/AddMode/Counts.antt =====
-- What a run of handleAddModeSubmit does, counted.
use expense_saas.Prelude.{
  ℕ, suc, String, Option, Bool, true, false, List, [], ◌∷◌, ◌++◌, ◌==◌, ◌≡◌, ap, refl,
}
use expense_saas.ItemPanel.AddMode.{
  File, failed, World, ApiToast, success, warning, Effect, set_item_api_error, post_attachment,
  set_is_sequential_uploading, set_abort_toast, set_api_toast, after_submit, release_controller,
}

-- The attachments that a run posts, and how often it ends well or by an abort.
unfoldable pub posted : List Effect → List (String × File)
posted [] = []
posted (post_attachment item file ∷ es) = (item, file) ∷ posted es
posted (_ ∷ es) = posted es

unfoldable pub after_submits : List Effect → ℕ
after_submits [] = 0
after_submits (after_submit ∷ es) = suc (after_submits es)
after_submits (_ ∷ es) = after_submits es

unfoldable pub abort_toasts : List Effect → ℕ
abort_toasts [] = 0
abort_toasts (set_abort_toast _ ∷ es) = suc (abort_toasts es)
abort_toasts (_ ∷ es) = abort_toasts es

unfoldable pub toasts : List Effect → List ApiToast
toasts [] = []
toasts (set_api_toast t ∷ es) = t ∷ toasts es
toasts (_ ∷ es) = toasts es

unfoldable pub errors : List Effect → List (Option String)
errors [] = []
errors (set_item_api_error e ∷ es) = e ∷ errors es
errors (_ ∷ es) = errors es

-- The flag `isSequentialUploading` behind the effects.
unfoldable pub uploading_after : List Effect → Bool → Bool
uploading_after [] b = b
uploading_after (set_is_sequential_uploading c ∷ es) b = uploading_after es c
uploading_after (_ ∷ es) b = uploading_after es b

-- The files from number `i` on that fail.
unfoldable pub failures : World → (i : ℕ) (files : List File) → ℕ
failures w i [] = 0
failures w i (_ ∷ files) =
    let rest = failures w (suc i) files in elim (w.post i) [ failed ↦ suc rest | _ ↦ rest ]

abbrev pub toast_of : ℕ → ApiToast
toast_of n = elim (n == 0) [
  | true ↦ success "明細を追加しました"
  | false ↦ warning n " 件の添付ファイルがアップロードに失敗しました。再試行してください"
]

pub posted-release : (es : List Effect) → posted (es ++ release_controller ∷ []) ≡ posted es
unfolding posted
posted-release [] = refl
posted-release (post_attachment item file ∷ es) = ap (λ l. (item, file) ∷ l) (posted-release es)
posted-release (_ ∷ es) = posted-release es

pub after_submits-release :
    (es : List Effect) → after_submits (es ++ release_controller ∷ []) ≡ after_submits es
unfolding after_submits
after_submits-release [] = refl
after_submits-release (after_submit ∷ es) = ap suc (after_submits-release es)
after_submits-release (_ ∷ es) = after_submits-release es

pub abort_toasts-release :
    (es : List Effect) → abort_toasts (es ++ release_controller ∷ []) ≡ abort_toasts es
unfolding abort_toasts
abort_toasts-release [] = refl
abort_toasts-release (set_abort_toast _ ∷ es) = ap suc (abort_toasts-release es)
abort_toasts-release (_ ∷ es) = abort_toasts-release es

pub toasts-release : (es : List Effect) → toasts (es ++ release_controller ∷ []) ≡ toasts es
unfolding toasts
toasts-release [] = refl
toasts-release (set_api_toast t ∷ es) = ap (λ l. t ∷ l) (toasts-release es)
toasts-release (_ ∷ es) = toasts-release es

pub uploading_after-release :
    (es : List Effect) (b : Bool)
    → uploading_after (es ++ release_controller ∷ []) b ≡ uploading_after es b
unfolding uploading_after
uploading_after-release [] b = refl
uploading_after-release (set_is_sequential_uploading c ∷ es) b = uploading_after-release es c
uploading_after-release (_ ∷ es) b = uploading_after-release es b
