-- ===== src/Uploader/Widget/Files.antt =====
-- AttachmentUploader.tsx: what a file that is chosen or dropped does to the hook and to the parent.
use expense_saas.Prelude.{
  ℕ, ◌+◌, Option, none, some, Bool, true, false, List, [], ◌∷◌, ◌++◌, ◌≡◌, refl, arith,
  Option-cases, Bool-cases, inl, inr, ◌⊎◌, ◌∙◌,
}
use expense_saas.Upload.{Upload, mutate}
use expense_saas.Uploader.{File, validate_file}
use expense_saas.Uploader.Widget.{
  Widget, Mode, add, edit, view, Call, reset_input, is_pending, is_uploading, keep_file, send_file,
  take_file, handle_change, handle_drop, is_add,
}
use expense_saas.Uploader.Widget.Reports.{
  told, ends, told-append, ends-append, IsReported, mutate-IsReported,
}

-- The same of what a handler leaves behind.
abbrev pub After : Widget × List Call → (b : Bool) (n : ℕ) → Type 0
After r b n = IsReported r.0.upload r.0.is_mounted (told b r.1) (n + ends r.1)

abbrev pub Before : Widget → (b : Bool) (n : ℕ) → Type 0
Before w b n = IsReported w.upload w.is_mounted b n

-- What a handler does to the hook: nothing, or a new upload.
unfoldable pub IsQuiet : Widget → Widget × List Call → Bool → Type 0
IsQuiet w r b =
    (r.0.upload ≡ w.upload) × (r.0.is_mounted ≡ w.is_mounted) × (told b r.1 ≡ b) × (ends r.1 ≡ 0)

IsSent : Widget → Widget × List Call → Bool → Type 0
IsSent w r b =
    (r.0.upload ≡ mutate w.upload)
    × (r.0.is_mounted ≡ w.is_mounted)
    × (told b r.1 ≡ true)
    × (ends r.1 ≡ 0)
    × (is_add w.mode ≡ false)

-- A handler that leaves the hook alone and reports nothing.
pub quiet :
    (w : Widget) (r : Widget × List Call) (b : Bool) (n : ℕ)
    → IsQuiet w r b
    → Before w b n
    → After r b n
unfolding IsQuiet
quiet w r b n q h =
    let none_more : n + ends r.1 ≡ n = ground (arith, q.3) in rw (q.0, q.1, q.2, none_more) h

-- A handler that has started an upload.
sent :
    (w : Widget) (r : Widget × List Call) (b : Bool) (n : ℕ)
    → r.0.upload ≡ mutate w.upload
    → r.0.is_mounted ≡ true
    → told b r.1 ≡ true
    → ends r.1 ≡ 0
    → IsReported (mutate w.upload) true true n
    → After r b n
sent w r b n u m t e h =
    let none_more : n + ends r.1 ≡ n = ground (arith, e) in rw (u, m, t, none_more) h

send_file-cases :
    (f : File) (w : Widget) (b : Bool)
    → is_add w.mode ≡ false
    → IsQuiet w (send_file f w) b ⊎ IsSent w (send_file f w) b
unfolding send_file told ends IsQuiet IsSent
send_file-cases f w b a = elim (Option-cases w.item_id) [
  | inl i ↦ inl (ground (arith, i))
  | inr (id, i) ↦ inr (ground (arith, i, a))
]

mode_cases : (m : Mode) → (m ≡ add) ⊎ (is_add m ≡ false)
mode_cases add = inl refl
mode_cases edit = inr refl
mode_cases view = inr refl

take_file-cases :
    (f : File) (w : Widget) (b : Bool) → IsQuiet w (take_file f w) b ⊎ IsSent w (take_file f w) b
unfolding take_file keep_file told ends IsQuiet
take_file-cases f w b = elim (Option-cases (validate_file f)) [
  | inr (m, i) ↦ inl (ground (arith, i))
  | inl i ↦ elim (mode_cases w.mode) [
    | inl a ↦ inl (ground (arith, i, a))
    | inr a ↦
        let same : take_file f w ≡ send_file f w = ground (arith, i, a) in
        rw same (send_file-cases f w b a)
  ]
]

mounted : (u : Upload) (m b : Bool) (n : ℕ) → m ≡ true → IsReported u m b n → IsReported u true b n
mounted u m b n e h = rw e at h

not_pending :
    (w : Widget) → is_uploading w ≡ false → is_add w.mode ≡ false → is_pending w.upload ≡ false
unfolding is_uploading
not_pending w e a = ground (arith, e, a)

take_file-After :
    (f : File) (w : Widget) (b : Bool) (n : ℕ)
    → is_uploading w ≡ false
    → w.is_mounted ≡ true
    → Before w b n
    → After (take_file f w) b n
unfolding IsQuiet IsSent
take_file-After f w b n e m h = elim (take_file-cases f w b) [
  | inl q ↦ quiet w (take_file f w) b n q h
  | inr q ↦
      sent w (take_file f w) b n q.0 (q.1 ∙ m) q.2 q.3 (
        mutate-IsReported w.upload b n (not_pending w e q.4)
          (mounted w.upload w.is_mounted b n m h))
]

-- What follows in the trace and tells nothing.
more :
    (w : Widget) (cs ds : List Call) (b : Bool) (n : ℕ)
    → ((c : Bool) → told c ds ≡ c)
    → ends ds ≡ 0
    → After (w, cs) b n
    → After (w, cs ++ ds) b n
more w cs ds b n t e h =
    let same_flag : told b (cs ++ ds) ≡ told b cs = told-append b cs ds ∙ t (told b cs) in
    let same_count : n + ends (cs ++ ds) ≡ n + ends cs = ground (arith, ends-append cs ds, e) in
    rw (same_flag, same_count) h

pub handle_change-After :
    (file : Option File) (w : Widget) (b : Bool) (n : ℕ)
    → is_uploading w ≡ false
    → w.is_mounted ≡ true
    → Before w b n
    → After (handle_change file w) b n
unfolding handle_change told ends IsQuiet
handle_change-After none w b n e m h = quiet w (w, []) b n (refl, refl, refl, refl) h
handle_change-After (some f) w b n e m h =
    let r = take_file f w in
    more r.0 r.1 (reset_input ∷ []) b n (λ c. refl) refl (take_file-After f w b n e m h)

pub handle_drop-After :
    (file : Option File) (w : Widget) (b : Bool) (n : ℕ)
    → w.is_mounted ≡ true
    → Before w b n
    → After (handle_drop file w) b n
unfolding handle_drop told ends is_uploading IsQuiet
handle_drop-After none w b n m h = quiet w (handle_drop none w) b n (ground arith) h
handle_drop-After (some f) w b n m h =
    let left = record w { is_drag_over = false } in
    elim (Bool-cases (is_uploading w)) [
      | inl e ↦ quiet w (handle_drop (some f) w) b n (ground (arith, e)) h
      | inr e ↦
          let same : handle_drop (some f) w ≡ take_file f left = ground (arith, e) in
          rw same (take_file-After f left b n e m h)
    ]
