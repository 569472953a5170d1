-- ===== src/Uploader/Widget/Reports.antt =====
-- AttachmentUploader.tsx in the mode 'edit': how the parent learns of the uploads.
use expense_saas.Prelude.{
  ℕ, suc, ◌+◌, ◌≤◌, Bool, true, false, List, [], ◌∷◌, ◌++◌, ◌||◌, not, ltb, ◌≡◌, refl, arith,
}
use expense_saas.Upload.{Upload, mutate, cancel, settle, new_upload}
use expense_saas.Upload.Aborts.{
  IsHeld, mutate-IsHeld, cancel-IsHeld, settle-IsHeld, new_upload-IsHeld,
}
use expense_saas.Uploader.Widget.{
  Call, on_pending_file_added, on_pending_files_change, on_pending_file_added_success,
  on_pending_file_removed, on_uploading_change, post_file, on_upload_success, on_upload_aborted,
  on_upload_error, open_window, warn_blocked, reset_input, is_pending,
}

-- What onUploadingChange told last.
unfoldable pub told : (before : Bool) → List Call → Bool
told b [] = b
told b (on_uploading_change c ∷ cs) = told c cs
told b (_ ∷ cs) = told b cs

-- How many ends of uploads were reported.
unfoldable pub ends : List Call → ℕ
ends [] = 0
ends (on_upload_success ∷ cs) = suc (ends cs)
ends (on_upload_aborted ∷ cs) = suc (ends cs)
ends (on_upload_error m ∷ cs) = suc (ends cs)
ends (_ ∷ cs) = ends cs

pub told-append : (b : Bool) (cs ds : List Call) → told b (cs ++ ds) ≡ told (told b cs) ds
unfolding told
told-append b [] ds = refl
told-append b (on_uploading_change c ∷ cs) ds = told-append c cs ds
told-append b (on_pending_file_added f ∷ cs) ds = told-append b cs ds
told-append b (on_pending_files_change f ∷ cs) ds = told-append b cs ds
told-append b (on_pending_file_added_success ∷ cs) ds = told-append b cs ds
told-append b (on_pending_file_removed ∷ cs) ds = told-append b cs ds
told-append b (post_file i f ∷ cs) ds = told-append b cs ds
told-append b (on_upload_success ∷ cs) ds = told-append b cs ds
told-append b (on_upload_aborted ∷ cs) ds = told-append b cs ds
told-append b (on_upload_error m ∷ cs) ds = told-append b cs ds
told-append b (open_window u ∷ cs) ds = told-append b cs ds
told-append b (warn_blocked ∷ cs) ds = told-append b cs ds
told-append b (reset_input ∷ cs) ds = told-append b cs ds

pub ends-append : (cs ds : List Call) → ends (cs ++ ds) ≡ ends cs + ends ds
unfolding ends
ends-append [] ds = ground arith
ends-append (on_uploading_change c ∷ cs) ds = ends-append cs ds
ends-append (on_pending_file_added f ∷ cs) ds = ends-append cs ds
ends-append (on_pending_files_change f ∷ cs) ds = ends-append cs ds
ends-append (on_pending_file_added_success ∷ cs) ds = ends-append cs ds
ends-append (on_pending_file_removed ∷ cs) ds = ends-append cs ds
ends-append (post_file i f ∷ cs) ds = ends-append cs ds
ends-append (on_upload_success ∷ cs) ds = ground (arith, ends-append cs ds)
ends-append (on_upload_aborted ∷ cs) ds = ground (arith, ends-append cs ds)
ends-append (on_upload_error m ∷ cs) ds = ground (arith, ends-append cs ds)
ends-append (open_window u ∷ cs) ds = ends-append cs ds
ends-append (warn_blocked ∷ cs) ds = ends-append cs ds
ends-append (reset_input ∷ cs) ds = ends-append cs ds

abbrev pub pending_count : Upload → ℕ
pending_count u = elim (is_pending u) [ true ↦ 1 | false ↦ 0 ]

-- `b` is what the parent was told last, `n` how many ends it has heard of.
pub record IsReported (u : Upload) (is_mounted : Bool) (b : Bool) (n : ℕ) : Type 0 where
  pub held : IsHeld u
  pub earlier : (k : ℕ) → ltb (suc k) u.started ≡ true → u.is_settled k ≡ true
  pub flag : is_mounted ≡ true → b ≡ is_pending u
  pub count : is_mounted ≡ true → n + pending_count u ≡ u.started
  pub bound : n ≤ u.started

last_pending :
    (u : Upload) (k : ℕ)
    → is_pending u ≡ false
    → ((j : ℕ) → ltb (suc j) u.started ≡ true → u.is_settled j ≡ true)
    → ltb k u.started ≡ true
    → u.is_settled k ≡ true
unfolding is_pending
last_pending u k e h lt = ground (arith, e, h k, lt)

pub mutate-IsReported :
    (u : Upload) (b : Bool) (n : ℕ)
    → is_pending u ≡ false
    → IsReported u true b n
    → IsReported (mutate u) true true n
unfolding mutate is_pending
mutate-IsReported u b n e h = record {
  held = mutate-IsHeld u (λ k lt. last_pending u k e h.earlier lt) h.held;
  earlier = λ k lt. last_pending u k e h.earlier (ground (arith, lt));
  flag = λ m. ground (arith, h.held.settled u.started);
  count = λ m. ground (arith, h.held.settled u.started, h.count refl, e);
  bound = ground (arith, h.bound);
}

pub cancel-IsReported :
    (u : Upload) (m b : Bool) (n : ℕ) → IsReported u m b n → IsReported (cancel u) m b n
unfolding cancel is_pending
cancel-IsReported u m b n h = record {
  held = cancel-IsHeld u h.held;
  earlier = h.earlier;
  flag = h.flag;
  count = h.count;
  bound = h.bound;
}

-- The upload that ends is the last one, as all others have ended.
pub settle-is_last :
    (u : Upload) (k : ℕ)
    → u.is_settled k || not (ltb k u.started) ≡ false
    → ((j : ℕ) → ltb (suc j) u.started ≡ true → u.is_settled j ≡ true)
    → u.started ≡ suc k
settle-is_last u k e h = ground (arith, e, h k)

settle-is_pending : (u : Upload) (k : ℕ) → u.started ≡ suc k → is_pending (settle k u) ≡ false
unfolding settle is_pending
settle-is_pending u k e = ground (arith, e)

settle-started : (u : Upload) (k : ℕ) → (settle k u).started ≡ u.started
unfolding settle
settle-started u k = ground arith

settle-is_settled :
    (u : Upload) (j k : ℕ) → u.is_settled j ≡ true → (settle k u).is_settled j ≡ true
unfolding settle
settle-is_settled u j k h = ground (arith, h)

was_pending :
    (u : Upload) (k : ℕ)
    → u.is_settled k || not (ltb k u.started) ≡ false
    → u.started ≡ suc k
    → pending_count u ≡ 1
unfolding is_pending
was_pending u k e last = ground (arith, e, last)

pub settle-IsReported :
    (u : Upload) (k : ℕ) (m b : Bool) (n : ℕ)
    → u.is_settled k || not (ltb k u.started) ≡ false
    → IsReported u m b n
    → (c : Bool) (l : ℕ) → (m ≡ true → c ≡ false)
    → (m ≡ true → l ≡ suc n)
    → (m ≡ false → l ≡ n)
    → IsReported (settle k u) m c l
settle-IsReported u k m b n e h c l told_end one_more none_more =
    let last = settle-is_last u k e h.earlier in
    let idle = settle-is_pending u k last in
    let same = settle-started u k in
    let was = was_pending u k e last in
    record {
      held = settle-IsHeld k u h.held;
      earlier = λ j lt. settle-is_settled u j k (h.earlier j (ground (arith, same, lt)));
      flag = λ on. ground (arith, idle, told_end on);
      count = λ on. ground (arith, idle, same, was, h.count on, one_more on);
      bound = ground (arith, same, h.bound, was, h.count, one_more, none_more);
    }

pub new_upload-IsReported : IsReported new_upload true false 0
unfolding new_upload is_pending
new_upload-IsReported = record {
  held = new_upload-IsHeld;
  earlier = λ k lt. ground (arith, lt);
  flag = λ m. refl;
  count = λ m. refl;
  bound = ground arith;
}
