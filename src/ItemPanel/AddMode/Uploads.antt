-- ===== src/ItemPanel/AddMode/Uploads.antt =====
-- ItemSlidePanel.tsx, handleAddModeSubmit: which files are sent, and how the run ends.
use expense_saas.Prelude.{
  String, Option, none, some, Bool, true, false, List, [], ◌∷◌, ◌++◌, length, ◌≡◌, ap, refl, arith,
  map, ◌∙◌, sym,
}
use expense_saas.ItemForm.{ItemFormValues}
use expense_saas.ItemPanel.AddMode.{
  File, created, refused, World, Effect, set_item_api_error, create_item, set_progress,
  take_controller, release_controller, succeed, upload_from, upload_all, handle_add_mode_submit,
  error_message,
}
use expense_saas.ItemPanel.AddMode.Counts.{
  posted, after_submits, abort_toasts, toasts, uploading_after, failures, toast_of, errors,
  posted-release, after_submits-release, abort_toasts-release, toasts-release,
  uploading_after-release,
}
use expense_saas.ItemPanel.AddMode.Loop.{
  IsOrderly, progress-IsOrderly, flag-IsOrderly, upload_from-IsOrderly, NeverAborts,
  upload_from-toasts,
}

release-IsOrderly :
    (busy : Bool) (item : String) (files : List File) (es : List Effect)
    → IsOrderly busy item files es
    → IsOrderly busy item files (es ++ release_controller ∷ [])
release-IsOrderly busy item files es h = record {
  sent = h.sent;
  unsent = h.unsent;
  in_order = h.in_order;
  posts = posted-release es ∙ h.posts;
  one_end = rw (after_submits-release es, abort_toasts-release es) h.one_end;
  complete = rw (after_submits-release es) h.complete;
  idle = uploading_after-release es busy ∙ h.idle;
}

succeed-IsOrderly : (item : String) → IsOrderly false item [] succeed
unfolding succeed posted after_submits abort_toasts uploading_after
succeed-IsOrderly item = record {
  sent = [];
  unsent = [];
  in_order = refl;
  posts = refl;
  one_end = refl;
  complete = λ h. refl;
  idle = refl;
}

upload_all-IsOrderly :
    (w : World) (item : String) (files : List File)
    → IsOrderly false item files (upload_all w item files)
unfolding upload_all
upload_all-IsOrderly w item [] = succeed-IsOrderly item
upload_all-IsOrderly w item (file ∷ files) =
    let n = length (file ∷ files) in
    flag-IsOrderly item (file ∷ files) (set_progress 0 n ∷ upload_from w item n 0 0 (file ∷ files))
      true
      (progress-IsOrderly item (file ∷ files) (upload_from w item n 0 0 (file ∷ files)) 0 n
        (upload_from-IsOrderly w item n 0 0 (file ∷ files)))

-- What comes before the uploads.
opening-IsOrderly :
    (item : String) (values : ItemFormValues) (files : List File) (es : List Effect)
    → IsOrderly false item files es
    → IsOrderly false item files
        (set_item_api_error none ∷ take_controller ∷ create_item values ∷ es)
unfolding posted after_submits abort_toasts uploading_after
opening-IsOrderly item values files es h = record {
  sent = h.sent;
  unsent = h.unsent;
  in_order = h.in_order;
  posts = h.posts;
  one_end = h.one_end;
  complete = h.complete;
  idle = h.idle;
}

-- The files are sent one by one in their order, to the item that was created, and the panel is not
-- left busy. A run that creates its item ends in exactly one of two ways: with the callback behind
-- a save, once every file was sent, or with one notice of an abort.
pub handle_add_mode_submit-IsOrderly :
    (w : World) (values : ItemFormValues) (files : List File) (item : String)
    → w.creation ≡ created item
    → IsOrderly false item files (handle_add_mode_submit w values files)
unfolding handle_add_mode_submit
handle_add_mode_submit-IsOrderly w values files item e = rw e (
    opening-IsOrderly item values files (upload_all w item files ++ release_controller ∷ []) (
      release-IsOrderly false item files (upload_all w item files)
        (upload_all-IsOrderly w item files)))

append-nil {ℓ} : {A : Type ℓ} (xs : List A) → xs ++ [] ≡ xs
append-nil [] = refl
append-nil (x ∷ xs) = ap (λ l. x ∷ l) (append-nil xs)

-- A run that reaches the callback has sent every file, and reports no abort.
IsOrderly-complete :
    (busy : Bool) (item : String) (files : List File) (es : List Effect)
    → IsOrderly busy item files es
    → after_submits es ≡ 1
    → (posted es ≡ map (λ f. (item, f)) files) × (abort_toasts es ≡ 0)
IsOrderly-complete busy item files es h e =
    let all_sent : h.sent ≡ files =
      sym (append-nil h.sent) ∙ ap (λ l. h.sent ++ l) (sym (h.complete e)) ∙ h.in_order in
    (h.posts ∙ ap (map (λ f. (item, f))) all_sent, omega (arith, h.one_end, e))

failures-nil : (w : World) → failures w 0 [] ≡ 0
unfolding failures
failures-nil w = refl

upload_all-toasts :
    (w : World) (item : String) (files : List File)
    → NeverAborts w item
    → let es = upload_all w item files in
      (after_submits es ≡ 1) × (toasts es ≡ toast_of (failures w 0 files) ∷ [])
unfolding upload_all succeed after_submits toasts
upload_all-toasts w item [] h = (refl, ap (λ n. toast_of n ∷ []) (sym (failures-nil w)))
upload_all-toasts w item (file ∷ files) h =
    let n = length (file ∷ files) in
    ground (arith, upload_from-toasts w item n 0 0 (file ∷ files) h)

handle_add_mode_submit-toasts :
    (w : World) (values : ItemFormValues) (files : List File) (item : String)
    → NeverAborts w item
    → let es = handle_add_mode_submit w values files in
      (after_submits es ≡ 1) × (toasts es ≡ toast_of (failures w 0 files) ∷ [])
unfolding handle_add_mode_submit after_submits toasts failures
handle_add_mode_submit-toasts w values files item h =
    let es = upload_all w item files in
    rw (h.creation, after_submits-release es, toasts-release es) (upload_all-toasts w item files h)

-- If the item is created and nothing aborts, then every file is sent, the callback behind a save
-- runs once, no abort is reported, and the one toast is a success exactly if no file failed, and
-- otherwise a warning with the number of files that did.
pub handle_add_mode_submit-completes :
    (w : World) (values : ItemFormValues) (files : List File) (item : String)
    → NeverAborts w item
    → let es = handle_add_mode_submit w values files in
      (posted es ≡ map (λ f. (item, f)) files)
      × (after_submits es ≡ 1)
      × (abort_toasts es ≡ 0)
      × (toasts es ≡ toast_of (failures w 0 files) ∷ [])
handle_add_mode_submit-completes w values files item h =
    let es = handle_add_mode_submit w values files in
    let (once, toast) = handle_add_mode_submit-toasts w values files item h in
    let orderly = handle_add_mode_submit-IsOrderly w values files item h.creation in
    let (all_sent, no_abort) = IsOrderly-complete false item files es orderly once in
    (all_sent, once, no_abort, toast)

-- If the item is not created, no file is sent, no callback runs, nothing is reported in a toast, and
-- the message of the error is shown, a fixed text in its place if an unknown value was thrown.
handle_add_mode_submit-refused :
    (w : World) (values : ItemFormValues) (files : List File) (error : Option String)
    → w.creation ≡ refused error
    → let es = handle_add_mode_submit w values files in
      (posted es ≡ [])
      × (after_submits es ≡ 0)
      × (abort_toasts es ≡ 0)
      × (toasts es ≡ [])
      × (errors es ≡ none ∷ some (error_message error) ∷ [])
unfolding handle_add_mode_submit posted after_submits abort_toasts toasts errors
handle_add_mode_submit-refused w values files error e = rw e (refl, refl, refl, refl, refl)
