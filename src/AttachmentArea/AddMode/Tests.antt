-- ===== src/AttachmentArea/AddMode/Tests.antt =====
-- Files of a new item: two are chosen, one is taken out, and the rest is sent or thrown away.
use expense_saas.Prelude.{some, false, List, [], ◌∷◌, ◌≡◌, refl, map}
use expense_saas.ItemForm.{ItemFormValues, whole}
use expense_saas.ItemPanel
use expense_saas.ItemPanel.AddMode.{
  World, created, uploaded, handle_add_mode_submit, reset_dirty_state,
}
use expense_saas.ItemPanel.AddMode.Counts.{posted}
use expense_saas.ItemPanel.AddMode.Loop.{NeverAborts}
use expense_saas.Uploader.{File, handle_file, handle_pending_file_remove}
use expense_saas.Uploader.Lists.{member}
use expense_saas.Uploader.Urls.{IsOwned}
use expense_saas.Uploader.Widget.{clear_when_empty, new_widget}
use expense_saas.AttachmentArea.AddMode.{
  Event, choose, put_down, take_out, press_close, press_keep, saving, step, run, new_entry,
  panel_file,
}
use expense_saas.AttachmentArea.AddMode.Runs.{AreNew, run-sends_rows, run-emptied}

abbrev scan : File
scan = record { identity = 4; mime_type = "image/png"; size = 2048 }

abbrev bill : File
bill = record { identity = 9; mime_type = "application/pdf"; size = 5242880 }

abbrev events : List Event
events = choose (some scan) ∷ put_down (some bill) ∷ take_out 0 ∷ press_close ∷ press_keep ∷ []

events-AreNew : AreNew events new_entry
unfolding member new_entry step new_widget handle_file handle_pending_file_remove ItemPanel.step
events-AreNew = (refl, (refl, (tt, (tt, (tt, tt)))))

bill_left : (run events new_entry).panel.pending_files ≡ panel_file bill ∷ []
unfolding run step new_entry handle_file handle_pending_file_remove
bill_left = refl

abbrev lunch : ItemFormValues
lunch = record {
  expense_date = b'd' ∷ [];
  amount = whole 900;
  category_id = b'c' ∷ [];
  description = b'l' ∷ [];
}

abbrev world : World
world = record { creation = created "item-1"; is_aborted = λ _. false; post = λ _. uploaded }

world-NeverAborts : NeverAborts world "item-1"
world-NeverAborts = record { creation = refl; signal = λ i. refl; post = λ i. cc }

run-sends_rows_example :
    (posted (handle_add_mode_submit world lunch (run events new_entry).panel.pending_files)
      ≡ map (λ f. ("item-1", panel_file f)) (run events new_entry).widget.uploader.pending_files)
    × IsOwned (run events new_entry).widget.uploader
    × (clear_when_empty (run events new_entry).widget.uploader
        ≡ (run events new_entry).widget.uploader)
run-sends_rows_example = run-sends_rows events world lunch "item-1" events-AreNew world-NeverAborts

run-emptied_example :
    ((step (saving reset_dirty_state) (run events new_entry)).widget.uploader.pending_files ≡ [])
    × ((step (saving reset_dirty_state) (run events new_entry)).widget.uploader.browser.live ≡ [])
    × ((step (saving reset_dirty_state) (run events new_entry)).panel.pending_files ≡ [])
run-emptied_example = run-emptied events (saving reset_dirty_state) events-AreNew refl
