-- ===== src/Uploader/Tests.antt =====
-- Files that wait in a new item.
use expense_saas.Prelude.{some, List, [], ◌∷◌, ◌≡◌, refl}
use expense_saas.Uploader.{File, at, handle_file, handle_pending_file_remove}
use expense_saas.Uploader.Lists.{member}
use expense_saas.Uploader.Urls.{IsOwned}
use expense_saas.Uploader.Leaks.{
  Event, choose, take_out, run, AreNew, new_uploader, run-new_uploader-IsOwned,
}

abbrev scan : File
scan = record { identity = 4; mime_type = "image/png"; size = 2048 }

abbrev bill : File
bill = record { identity = 9; mime_type = "application/pdf"; size = 5242880 }

abbrev movie : File
movie = record { identity = 5; mime_type = "video/mp4"; size = 10 }

abbrev events : List Event
events = choose scan ∷ choose movie ∷ choose bill ∷ take_out 0 ∷ take_out 3 ∷ []

events-AreNew : AreNew events new_uploader
unfolding member handle_file handle_pending_file_remove
events-AreNew = (refl, (refl, (refl, (tt, (tt, tt)))))

bill_left : at 0 (run events new_uploader).pending_files ≡ some bill
unfolding run at handle_file handle_pending_file_remove
bill_left = refl

run-new_uploader-IsOwned_example : IsOwned (run events new_uploader)
run-new_uploader-IsOwned_example = run-new_uploader-IsOwned events events-AreNew
