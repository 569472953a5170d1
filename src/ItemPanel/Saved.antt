-- ===== src/ItemPanel/Saved.antt =====
-- ItemSlidePanel.tsx: what saving a new item does to the panel.
use expense_saas.Prelude.{
  ℕ, suc, String, none, false, List, [], ◌∷◌, ◌++◌, ◌==◌, ◌≡◌, ◌<◌, refl, arith, ap, ◌∙◌, sym,
  Bool-cases, inl, inr, length,
}
use expense_saas.ItemForm.{ItemFormValues}
use expense_saas.ItemPanel.AddMode.{
  File, World, Creation, created, refused, Effect, set_item_api_error, create_item,
  set_is_sequential_uploading, reset_dirty_state, take_controller, release_controller, stop,
  succeed, warn, finish, upload_from, upload_all, handle_add_mode_submit, after_creation,
}
use expense_saas.ItemPanel.AddMode.Counts.{after_submits, uploading_after, after_submits-release}
use expense_saas.ItemPanel.AddMode.Loop.{NeverAborts}
use expense_saas.ItemPanel.AddMode.Uploads.{
  handle_add_mode_submit-completes, handle_add_mode_submit-IsOrderly,
}
use expense_saas.ItemPanel.{Panel, is_dirty, apply, apply_all, reset_dirty}

-- How often the unsaved input is dropped.
unfoldable pub resets : List Effect → ℕ
resets [] = 0
resets (reset_dirty_state ∷ es) = suc (resets es)
resets (_ ∷ es) = resets es

-- The input is dropped as often as the callback behind a save runs.
upload_from-resets :
    (w : World) (item : String) (total i n : ℕ) (files : List File)
    → let es = upload_from w item total i n files in resets es ≡ after_submits es
unfolding upload_from finish succeed warn stop resets after_submits
upload_from-resets w item total i n [] = ground arith
upload_from-resets w item total i n (file ∷ files) = ground (
  arith,
  upload_from-resets w item total (suc i) n files,
  upload_from-resets w item total (suc i) (suc n) files,
)

upload_all-resets :
    (w : World) (item : String) (files : List File)
    → let es = upload_all w item files in resets es ≡ after_submits es
unfolding upload_all succeed resets after_submits
upload_all-resets w item [] = refl
upload_all-resets w item (file ∷ files) =
    upload_from-resets w item (length (file ∷ files)) 0 0 (file ∷ files)

resets-release : (es : List Effect) → resets (es ++ release_controller ∷ []) ≡ resets es
unfolding resets
resets-release [] = refl
resets-release (reset_dirty_state ∷ es) = ap suc (resets-release es)
resets-release (_ ∷ es) = resets-release es

after_creation-resets :
    (w : World) (c : Creation) (files : List File)
    → let es = after_creation w c files in resets es ≡ after_submits es
unfolding resets after_submits
after_creation-resets w (created item) files = upload_all-resets w item files
after_creation-resets w (refused e) files = refl

handle_add_mode_submit-resets :
    (w : World) (values : ItemFormValues) (files : List File)
    → let es = handle_add_mode_submit w values files in resets es ≡ after_submits es
unfolding handle_add_mode_submit resets after_submits
handle_add_mode_submit-resets w values files =
    let es = after_creation w w.creation files in
    resets-release es ∙ after_creation-resets w w.creation files ∙ sym (after_submits-release es)

apply_all-kept :
    (es : List Effect) (p : Panel)
    → resets es ≡ 0
    → (is_dirty (apply_all es p) ≡ is_dirty p) × ((apply_all es p).pending_files ≡ p.pending_files)
unfolding apply_all apply resets
apply_all-kept [] p h = (refl, refl)
apply_all-kept (reset_dirty_state ∷ es) p h = absurd (ground (arith, h))
apply_all-kept (e ∷ es) p h = apply_all-kept es (apply e p) h

reset_dirty-clean : (p : Panel) → is_dirty (reset_dirty p) ≡ false
unfolding reset_dirty
reset_dirty-clean p = ground arith

reset_dirty-files : (p : Panel) → (reset_dirty p).pending_files ≡ []
unfolding reset_dirty
reset_dirty-files p = refl

apply_all-clean :
    (es : List Effect) (p : Panel)
    → 0 < resets es
    → (is_dirty (apply_all es p) ≡ false) × ((apply_all es p).pending_files ≡ [])
unfolding apply_all apply resets
apply_all-clean [] p h = absurd (ground (arith, h))
apply_all-clean (reset_dirty_state ∷ es) p h = elim (Bool-cases (resets es == 0)) [
  | inl e ↦
      let (same, files) = apply_all-kept es (reset_dirty p) (ground (arith, e)) in
      (same ∙ reset_dirty-clean p, files ∙ reset_dirty-files p)
  | inr e ↦ apply_all-clean es (reset_dirty p) (ground (arith, e))
]
apply_all-clean (e ∷ es) p h = apply_all-clean es (apply e p) h

apply_all-uploading :
    (es : List Effect) (p : Panel)
    → (apply_all es p).is_sequential_uploading ≡ uploading_after es p.is_sequential_uploading
unfolding apply_all apply reset_dirty uploading_after
apply_all-uploading [] p = refl
apply_all-uploading (set_is_sequential_uploading b ∷ es) p =
    apply_all-uploading es (apply (set_is_sequential_uploading b) p)
apply_all-uploading (e ∷ es) p = apply_all-uploading es (apply e p)

apply_all-release :
    (es : List Effect) (p : Panel)
    → (apply_all (es ++ release_controller ∷ []) p).has_controller ≡ false
unfolding apply_all apply
apply_all-release [] p = refl
apply_all-release (e ∷ es) p = apply_all-release es (apply e p)

handle_add_mode_submit-release :
    (w : World) (values : ItemFormValues) (files : List File) (p : Panel)
    → (apply_all (handle_add_mode_submit w values files) p).has_controller ≡ false
unfolding handle_add_mode_submit
handle_add_mode_submit-release w values files p =
    apply_all-release
      (set_item_api_error none
        ∷ take_controller
        ∷ create_item values
        ∷ after_creation w w.creation files)
      p

-- Behind a save that creates its item and is not aborted, no unsaved input is left in the panel, so
-- neither leaving the page nor closing the panel asks a question; the panel is not busy and has
-- released its controller.
pub apply_all-saved :
    (w : World) (values : ItemFormValues) (item : String) (p : Panel)
    → NeverAborts w item
    → p.is_sequential_uploading ≡ false
    → let q = apply_all (handle_add_mode_submit w values p.pending_files) p in
      (is_dirty q ≡ false)
      × (q.pending_files ≡ [])
      × (q.is_sequential_uploading ≡ false)
      × (q.has_controller ≡ false)
apply_all-saved w values item p h idle =
    let es = handle_add_mode_submit w values p.pending_files in
    let once = (handle_add_mode_submit-completes w values p.pending_files item h).1 in
    let same = handle_add_mode_submit-resets w values p.pending_files in
    let (clean, empty) = apply_all-clean es p (omega (arith, once, same)) in
    let orderly = handle_add_mode_submit-IsOrderly w values p.pending_files item h.creation in
    (
      clean,
      empty,
      apply_all-uploading es p ∙ ap (uploading_after es) idle ∙ orderly.idle,
      handle_add_mode_submit-release w values p.pending_files p,
    )

-- A save that does not reach its callback, because the item was refused or the user aborted, keeps
-- the input and the files of the panel, and releases the controller.
apply_all-unsaved :
    (w : World) (values : ItemFormValues) (p : Panel)
    → after_submits (handle_add_mode_submit w values p.pending_files) ≡ 0
    → let q = apply_all (handle_add_mode_submit w values p.pending_files) p in
      (is_dirty q ≡ is_dirty p) × (q.pending_files ≡ p.pending_files) × (q.has_controller ≡ false)
apply_all-unsaved w values p none_sent =
    let es = handle_add_mode_submit w values p.pending_files in
    let same = handle_add_mode_submit-resets w values p.pending_files in
    let (dirt, files) = apply_all-kept es p (same ∙ none_sent) in
    (dirt, files, handle_add_mode_submit-release w values p.pending_files p)
