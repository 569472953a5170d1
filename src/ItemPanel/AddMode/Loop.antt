-- ===== src/ItemPanel/AddMode/Loop.antt =====
-- ItemSlidePanel.tsx, handleAddModeSubmit: the loop over the files.
use expense_saas.Prelude.{
  ℕ, suc, String, Bool, true, false, List, [], ◌∷◌, ◌++◌, ◌==◌, ◌≡◌, ◌≢◌, ◌⊎◌, ap, ◌+◌, refl, arith,
  map, Bool-cases, inl, inr,
}
use expense_saas.ItemPanel.AddMode.{
  File, created, Upload, uploaded, failed, aborted, World, Effect, post_attachment,
  set_is_sequential_uploading, set_progress, stop, succeed, warn, finish, upload_from,
}
use expense_saas.ItemPanel.AddMode.Counts.{
  posted, after_submits, abort_toasts, toasts, uploading_after, failures, toast_of,
}

-- How a run may end that has created its item: every file was posted, or the run was aborted after
-- some of the first ones.
pub record IsOrderly (busy : Bool) (item : String) (files : List File) (es : List Effect)
    : Type 0 where
  pub sent : List File
  pub unsent : List File
  pub in_order : sent ++ unsent ≡ files
  pub posts : posted es ≡ map (λ f. (item, f)) sent
  pub one_end : after_submits es + abort_toasts es ≡ 1
  pub complete : after_submits es ≡ 1 → unsent ≡ []
  pub idle : uploading_after es busy ≡ false

pub finish-IsOrderly : (item : String) (n : ℕ) → IsOrderly true item [] (finish n)
unfolding finish succeed warn posted after_submits abort_toasts uploading_after
finish-IsOrderly item n = elim (Bool-cases (n == 0)) [
  | inl e ↦ rw e (record {
    sent = [];
    unsent = [];
    in_order = refl;
    posts = refl;
    one_end = refl;
    complete = λ h. refl;
    idle = refl;
  })
  | inr e ↦ rw e (record {
    sent = [];
    unsent = [];
    in_order = refl;
    posts = refl;
    one_end = refl;
    complete = λ h. refl;
    idle = refl;
  })
]

pub stop-IsOrderly : (item : String) (files : List File) → IsOrderly true item files stop
unfolding stop posted after_submits abort_toasts uploading_after
stop-IsOrderly item files = record {
  sent = [];
  unsent = files;
  in_order = refl;
  posts = refl;
  one_end = refl;
  complete = λ h. ground arith;
  idle = refl;
}

Upload-cases : (u : Upload) → (u ≡ uploaded) ⊎ (u ≡ failed) ⊎ (u ≡ aborted)
Upload-cases uploaded = inl refl
Upload-cases failed = inr (inl refl)
Upload-cases aborted = inr (inr refl)

-- One more file is posted before the rest of the run.
pub post-IsOrderly :
    (item : String) (file : File) (files : List File) (es : List Effect)
    → IsOrderly true item files es
    → IsOrderly true item (file ∷ files) (post_attachment item file ∷ es)
unfolding posted after_submits abort_toasts uploading_after
post-IsOrderly item file files es h = record {
  sent = file ∷ h.sent;
  unsent = h.unsent;
  in_order = ap (λ l. file ∷ l) h.in_order;
  posts = ap (λ l. (item, file) ∷ l) h.posts;
  one_end = h.one_end;
  complete = h.complete;
  idle = h.idle;
}

pub progress-IsOrderly :
    (item : String) (files : List File) (es : List Effect) (a b : ℕ)
    → IsOrderly true item files es
    → IsOrderly true item files (set_progress a b ∷ es)
unfolding posted after_submits abort_toasts uploading_after
progress-IsOrderly item files es a b h = record {
  sent = h.sent;
  unsent = h.unsent;
  in_order = h.in_order;
  posts = h.posts;
  one_end = h.one_end;
  complete = h.complete;
  idle = h.idle;
}

pub flag-IsOrderly :
    (item : String) (files : List File) (es : List Effect) (b : Bool)
    → IsOrderly b item files es
    → IsOrderly false item files (set_is_sequential_uploading b ∷ es)
unfolding posted after_submits abort_toasts uploading_after
flag-IsOrderly item files es b h = record {
  sent = h.sent;
  unsent = h.unsent;
  in_order = h.in_order;
  posts = h.posts;
  one_end = h.one_end;
  complete = h.complete;
  idle = h.idle;
}

-- The four ways through one round of the loop.
module _ (w : World) (item : String) (total i n : ℕ) (file : File) (files : List File) where
  round-stopped : w.is_aborted i ≡ true → upload_from w item total i n (file ∷ files) ≡ stop
  unfolding upload_from
  round-stopped e = ground (arith, e)

  round-uploaded :
      w.is_aborted i ≡ false
      → w.post i ≡ uploaded
      → upload_from w item total i n (file ∷ files)
        ≡ post_attachment item file
          ∷ set_progress (suc i) total
          ∷ upload_from w item total (suc i) n files
  unfolding upload_from
  round-uploaded e u = ground (arith, e, u)

  round-failed :
      w.is_aborted i ≡ false
      → w.post i ≡ failed
      → upload_from w item total i n (file ∷ files)
        ≡ post_attachment item file ∷ upload_from w item total (suc i) (suc n) files
  unfolding upload_from
  round-failed e u = ground (arith, e, u)

  round-aborted :
      w.is_aborted i ≡ false
      → w.post i ≡ aborted
      → upload_from w item total i n (file ∷ files) ≡ post_attachment item file ∷ stop
  unfolding upload_from
  round-aborted e u = ground (arith, e, u)

pub upload_from-IsOrderly :
    (w : World) (item : String) (total i n : ℕ) (files : List File)
    → IsOrderly true item files (upload_from w item total i n files)
unfolding upload_from
upload_from-IsOrderly w item total i n [] = finish-IsOrderly item n
upload_from-IsOrderly w item total i n (file ∷ files) = elim (Bool-cases (w.is_aborted i)) [
  | inl e ↦ rw (round-stopped w item total i n file files e) (stop-IsOrderly item (file ∷ files))
  | inr e ↦ elim (Upload-cases (w.post i)) [
    | inl u ↦ rw (round-uploaded w item total i n file files e u) (
        post-IsOrderly item file files
          (set_progress (suc i) total ∷ upload_from w item total (suc i) n files)
          (progress-IsOrderly item files (upload_from w item total (suc i) n files) (suc i) total
            (upload_from-IsOrderly w item total (suc i) n files)))
    | inr (inl u) ↦ rw (round-failed w item total i n file files e u) (
        post-IsOrderly item file files (upload_from w item total (suc i) (suc n) files)
          (upload_from-IsOrderly w item total (suc i) (suc n) files))
    | inr (inr u) ↦
        rw (round-aborted w item total i n file files e u)
          (post-IsOrderly item file files stop (stop-IsOrderly item files))
  ]
]

-- The item is created, and no abort happens while the files are sent.
pub record NeverAborts (w : World) (item : String) : Type 0 where
  pub creation : w.creation ≡ created item
  pub signal : (i : ℕ) → w.is_aborted i ≡ false
  pub post : (i : ℕ) → w.post i ≢ aborted

pub upload_from-toasts :
    (w : World) (item : String) (total i n : ℕ) (files : List File)
    → NeverAborts w item
    → let es = upload_from w item total i n files in
      (after_submits es ≡ 1) × (toasts es ≡ toast_of (n + failures w i files) ∷ [])
unfolding upload_from finish succeed warn after_submits toasts failures
upload_from-toasts w item total i n [] h = ground arith
upload_from-toasts w item total i n (file ∷ files) h = elim (Upload-cases (w.post i)) [
  | inl u ↦ ground (arith, h.signal i, u, upload_from-toasts w item total (suc i) n files h)
  | inr (inl u) ↦
      ground (arith, h.signal i, u, upload_from-toasts w item total (suc i) (suc n) files h)
  | inr (inr u) ↦ absurd (h.post i u)
]
