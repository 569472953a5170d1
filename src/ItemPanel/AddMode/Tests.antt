-- ===== src/ItemPanel/AddMode/Tests.antt =====
-- Saving a new item with two files.
use expense_saas.Prelude.{ℕ, none, true, false, List, [], ◌∷◌, ◌==◌, ◌≡◌, refl, map, ◌≢◌, arith}
use expense_saas.ItemForm.{ItemFormValues, whole}
use expense_saas.ItemPanel.AddMode.{
  File, created, refused, uploaded, failed, aborted, World, handle_add_mode_submit,
}
use expense_saas.ItemPanel.AddMode.Counts.{
  posted, after_submits, abort_toasts, toasts, failures, toast_of,
}
use expense_saas.ItemPanel.AddMode.Loop.{IsOrderly, NeverAborts}
use expense_saas.ItemPanel.AddMode.Uploads.{
  handle_add_mode_submit-IsOrderly, handle_add_mode_submit-completes,
}

abbrev lunch : ItemFormValues
lunch = record {
  expense_date = b'd' ∷ [];
  amount = whole 900;
  category_id = b'c' ∷ [];
  description = b'l' ∷ [];
}

abbrev files : List File
files = record { identity = 7 } ∷ record { identity = 8 } ∷ []

-- The first file fails.
abbrev half : World
half = record {
  creation = created "item-1";
  is_aborted = λ _. false;
  post = λ i. elim (i == 0) [ true ↦ failed | false ↦ uploaded ];
}

-- The panel is closed behind the first file.
abbrev closed : World
closed = record half { is_aborted = λ i. i == 1 }

abbrev offline : World
offline = record half { creation = refused none }

closed_posts :
    posted (handle_add_mode_submit closed lunch files) ≡ ("item-1", record { identity = 7 }) ∷ []
unfolding posted handle_add_mode_submit
closed_posts = refl

half_never : (i : ℕ) → half.post i ≢ aborted
half_never i = ground arith

half-NeverAborts : NeverAborts half "item-1"
half-NeverAborts = record { creation = refl; signal = λ i. refl; post = half_never }

handle_add_mode_submit-IsOrderly_example :
    IsOrderly false "item-1" files (handle_add_mode_submit closed lunch files)
handle_add_mode_submit-IsOrderly_example =
    handle_add_mode_submit-IsOrderly closed lunch files "item-1" refl

handle_add_mode_submit-completes_example :
    (posted (handle_add_mode_submit half lunch files) ≡ map (λ f. ("item-1", f)) files)
    × (after_submits (handle_add_mode_submit half lunch files) ≡ 1)
    × (abort_toasts (handle_add_mode_submit half lunch files) ≡ 0)
    × (toasts (handle_add_mode_submit half lunch files) ≡ toast_of (failures half 0 files) ∷ [])
handle_add_mode_submit-completes_example =
    handle_add_mode_submit-completes half lunch files "item-1" half-NeverAborts
