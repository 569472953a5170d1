-- ===== src/Upload/Tests.antt =====
-- An upload that is cancelled, and another one.
use expense_saas.Prelude.{ℕ, true, List, [], ◌∷◌, ◌≡◌, refl, arith, ltb}
use expense_saas.Upload.{cancel, new_upload, Event, start, stop, answer, step, run, mutate, settle}
use expense_saas.Upload.Aborts.{AreAllowed}

abbrev events : List Event
events = start ∷ stop ∷ answer 0 ∷ start ∷ []

none_started : (k : ℕ) → ltb k 0 ≡ true → new_upload.is_settled k ≡ true
none_started k h = ground (arith, h)

first_settled :
    (k : ℕ)
    → ltb k 1 ≡ true
    → (step (answer 0) (step stop (step start new_upload))).is_settled k ≡ true
unfolding step new_upload
first_settled k h = ground (arith, h)

events-AreAllowed : AreAllowed events new_upload
unfolding step new_upload
events-AreAllowed = (none_started, (tt, (tt, (first_settled, tt))))

second_started : ltb 1 (run events new_upload).started ≡ true
unfolding run step new_upload mutate cancel settle
second_started = refl
