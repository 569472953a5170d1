-- ===== src/Upload/Aborts.antt =====
-- useUploadAttachment.ts: nothing runs on behind an abort.
use expense_saas.Prelude.{
  ℕ, suc, none, some, true, false, List, [], ◌∷◌, ◌||◌, ltb, ◌≡◌, arith, ◌↔◌,
}
use expense_saas.Upload.{
  Upload, mutate, cancel, unmount, settle, new_upload, IsRunning, Event, start, stop, answer, step,
  run,
}

-- The upload has not been answered, so the uploader takes no other file.
abbrev pub IsPending : Upload → ℕ → Type 0
IsPending s k = (ltb k s.started ≡ true) × (s.is_settled k ≡ false)

abbrev pub IsAllowed : Event → Upload → Type 0
IsAllowed start s = (k : ℕ) → ltb k s.started ≡ true → s.is_settled k ≡ true
IsAllowed _ s = Unit {0}

-- The button and the drop zone take a file only when no upload is pending.
abbrev pub AreAllowed : List Event → Upload → Type 0
AreAllowed [] s = Unit {0}
AreAllowed (e ∷ es) s = IsAllowed e s × AreAllowed es (step e s)

-- An upload that runs is the one that the controller belongs to.
pub record IsHeld (s : Upload) : Type 0 where
  pub running : (k : ℕ) → IsRunning s k → s.controller ≡ some k
  pub one : (j k : ℕ) → IsPending s j → IsPending s k → j ≡ k
  pub held : (k : ℕ) → s.controller ≡ some k → IsRunning s k
  pub aborted : (k : ℕ) → s.is_aborted k ≡ true → ltb k s.started ≡ true
  pub settled : (k : ℕ) → s.is_settled k ≡ true → ltb k s.started ≡ true

pub new_upload-IsHeld : IsHeld new_upload
unfolding new_upload
new_upload-IsHeld = grind arith

pub mutate-IsHeld : (s : Upload) → IsAllowed start s → IsHeld s → IsHeld (mutate s)
unfolding mutate
mutate-IsHeld s a h = record {
  running = λ k r. ground (arith, h.running k, a k);
  one = λ j k x y. ground (arith, a j, a k);
  held = λ k e. ground (arith, h.aborted k, h.settled k, h.held k);
  aborted = λ k e. ground (arith, h.aborted k, h.held k);
  settled = λ k e. ground (arith, h.settled k);
}

pub cancel-IsHeld : (s : Upload) → IsHeld s → IsHeld (cancel s)
unfolding cancel
cancel-IsHeld s h = record {
  running = λ k r. ground (arith, h.running k);
  one = λ j k x y. ground (arith, h.one j k);
  held = λ k e. ground (arith, h.held k);
  aborted = λ k e. ground (arith, h.aborted k, h.held k);
  settled = λ k e. ground (arith, h.settled k);
}

pub settle-IsHeld : (n : ℕ) (s : Upload) → IsHeld s → IsHeld (settle n s)
unfolding settle
settle-IsHeld n s h = record {
  running = λ k r. ground (arith, h.running k, h.one n k);
  one = λ j k x y. ground (arith, h.one j k);
  held = λ k e. ground (arith, h.held k);
  aborted = λ k e. ground (arith, h.aborted k);
  settled = λ k e. ground (arith, h.settled k);
}

step-IsHeld : (e : Event) (s : Upload) → IsAllowed e s → IsHeld s → IsHeld (step e s)
unfolding step
step-IsHeld start s a h = mutate-IsHeld s a h
step-IsHeld stop s a h = cancel-IsHeld s h
step-IsHeld (answer n) s a h = settle-IsHeld n s h

run-IsHeld : (es : List Event) (s : Upload) → AreAllowed es s → IsHeld s → IsHeld (run es s)
unfolding run
run-IsHeld [] s a h = h
run-IsHeld (e ∷ es) s a h = run-IsHeld es (step e s) a.1 (step-IsHeld e s a.0 h)

-- Where no upload is started while another one is pending, nothing runs on behind a cancellation:
-- whatever was started is answered or aborted.
cancel-run :
    (es : List Event) (k : ℕ)
    → AreAllowed es new_upload
    → let s = cancel (run es new_upload) in
      ltb k s.started ≡ true → s.is_aborted k || s.is_settled k ≡ true
unfolding cancel
cancel-run es k a lt =
    let h = run-IsHeld es new_upload a new_upload-IsHeld in ground (arith, h.running k)

-- Where no upload is started while another one is pending, the end of the component leaves nothing
-- running, and the user is told of an abort exactly if an upload was running.
unmount-run_uploads :
    (es : List Event) (k : ℕ)
    → AreAllowed es new_upload
    → let p = run es new_upload in
      let s = unmount p in
      ltb k p.started ≡ true
      → (s.is_aborted k || s.is_settled k ≡ true)
        × (s.notices ≡ (elim p.controller [ none ↦ p.notices | some _ ↦ suc p.notices ]))
        × ((p.controller ≡ some k) ↔ IsRunning p k)
unfolding unmount
unmount-run_uploads es k a lt =
    let h = run-IsHeld es new_upload a new_upload-IsHeld in
    (ground (arith, h.running k), ground arith, (h.held k, h.running k))
