-- ===== src/Uploader/Widget/Tests.antt =====
-- An upload that is answered, and one that is still under way.
use expense_saas.Prelude.{◌+◌, none, some, true, false, List, [], ◌∷◌, ◌++◌, ◌||◌, ltb, ◌≡◌, refl}
use expense_saas.Upload.{cancel, mutate, settle, new_upload}
use expense_saas.AttachmentArea.{failed}
use expense_saas.Uploader.{File}
use expense_saas.Uploader.Leaks.{new_uploader}
use expense_saas.Uploader.Widget.{
  Widget, edit, add, on_uploading_change, post_file, on_upload_error, reset_input, is_pending,
  Event, change, drop, drag_over, preview, answer, ended, step, live_step, run, new_widget,
  open_window, warn_blocked,
}
use expense_saas.Uploader.Widget.Reports.{told, ends, pending_count}
use expense_saas.Uploader.Widget.Runs.{run-uploads_reported, ended-told}

abbrev scan : File
scan = record { identity = 4; mime_type = "image/png"; size = 2048 }

abbrev bill : File
bill = record { identity = 5; mime_type = "application/pdf"; size = 9 }

abbrev widget : Widget
unfolding new_widget
widget = new_widget edit (some "item") new_uploader

-- The second file is dropped while the first one is under way.
abbrev events : List Event
events =
    change (some scan)
    ∷ drag_over
    ∷ drop (some bill)
    ∷ answer 0 (failed "x")
    ∷ drop (some bill)
    ∷ []

traced :
    (run events widget).1
    ≡ on_uploading_change true
      ∷ post_file "item" scan
      ∷ reset_input
      ∷ on_uploading_change false
      ∷ on_upload_error "x"
      ∷ on_uploading_change true
      ∷ post_file "item" bill
      ∷ []
unfolding run step live_step new_widget new_upload
traced = refl

under_way : is_pending (run events widget).0.upload ≡ true
unfolding run step live_step new_widget new_upload is_pending mutate
under_way = refl

on_screen : (run events widget).0.is_mounted ≡ true
unfolding run step live_step new_widget new_upload
on_screen = refl

second_started : ltb 1 (run events widget).0.upload.started ≡ true
unfolding run step live_step new_widget new_upload mutate settle
second_started = refl

run-uploads_reported_example :
    (told false (run events widget).1 ≡ is_pending (run events widget).0.upload)
    × (ends (run events widget).1 + pending_count (run events widget).0.upload
        ≡ (run events widget).0.upload.started)
    × ((cancel (run events widget).0.upload).is_aborted 1
          || (cancel (run events widget).0.upload).is_settled 1
        ≡ true)
unfolding cancel new_widget
run-uploads_reported_example =
    run-uploads_reported edit (some "item") new_uploader events 1 on_screen second_started

ended-told_example :
    told false
      ((run events widget).1 ++ (run (ended ∷ answer 1 (failed "y") ∷ []) (run events widget).0).1)
    ≡ true
unfolding new_widget widget
ended-told_example =
    ended-told edit (some "item") new_uploader events (answer 1 (failed "y") ∷ []) on_screen
      under_way

-- A click on a row opens the URL of its file.
row_opened :
    (run
      (change (some scan) ∷ preview 0 true ∷ preview 1 false ∷ [])
      (new_widget add none new_uploader)).1
    ≡ (run (change (some scan) ∷ []) (new_widget add none new_uploader)).1
      ++ open_window 0 ∷ warn_blocked ∷ []
unfolding run step live_step new_widget
row_opened = refl
