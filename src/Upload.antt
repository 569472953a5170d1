-- ===== src/Upload.antt =====
-- frontend/src/hooks/useUploadAttachment.ts: the controller that aborts an upload under way. Uploads
-- and their controllers are numbered in the order of the calls of `mutate`.
pub mod Aborts
pub mod Deletion
mod Tests
use expense_saas.Prelude.{
  ℕ, suc, Option, none, some, Bool, true, false, List, [], ◌∷◌, ◌==◌, ◌||◌, ltb, if◌then◌else◌, ◌≡◌,
}

pub record Upload : Type 0 where
  -- abortControllerRef.current
  pub controller : Option ℕ
  pub started : ℕ
  pub is_aborted : ℕ → Bool
  pub is_settled : ℕ → Bool
  -- how often onAborted was called
  pub notices : ℕ

abbrev pub mark : (ℕ → Bool) → ℕ → ℕ → Bool
mark f k n = n == k || f n

-- `abortControllerRef.current.abort()`, if there is one.
abbrev abort : Option ℕ → (ℕ → Bool) → ℕ → Bool
abort none f = f
abort (some k) f = mark f k

-- mutate
unfoldable pub mutate : Upload → Upload
mutate s = record s {
  controller = some s.started;
  started = suc s.started;
  is_aborted = abort s.controller s.is_aborted;
}

-- cancel
unfoldable pub cancel : Upload → Upload
cancel s = record s { controller = none; is_aborted = abort s.controller s.is_aborted }

-- The cleanup of the effect when the component ends.
unfoldable pub unmount : Upload → Upload
unmount s = elim s.controller [
  | none ↦ s
  | some k ↦ record s {
    controller = none;
    is_aborted = mark s.is_aborted k;
    notices = suc s.notices;
  }
]

-- onSettled of upload number `k`; an upload settles once.
unfoldable pub settle : ℕ → Upload → Upload
settle k s =
    if s.is_settled k
    then s
    else if ltb k s.started
    then record s { controller = none; is_settled = mark s.is_settled k }
    else s

unfoldable pub new_upload : Upload
new_upload = record {
  controller = none;
  started = 0;
  is_aborted = λ _. false;
  is_settled = λ _. false;
  notices = 0;
}

-- The upload has been sent, and has neither been answered nor aborted.
abbrev pub IsRunning : Upload → ℕ → Type 0
IsRunning s k = (ltb k s.started ≡ true) × (s.is_aborted k ≡ false) × (s.is_settled k ≡ false)

pub data Event : Type 0 where
  start stop : Event
  answer : (k : ℕ) → Event

unfoldable pub step : Event → Upload → Upload
unfolding mutate cancel settle
step start s = mutate s
step stop s = cancel s
step (answer k) s = settle k s

unfoldable pub run : List Event → Upload → Upload
run [] s = s
run (e ∷ es) s = run es (step e s)
