-- ===== src/Uploader/Widget/Handlers.antt =====
-- AttachmentUploader.tsx: every handler, with the hook that it calls, and what the parent hears.
use expense_saas.Prelude.{
  ℕ, suc, ◌+◌, ◌≤◌, some, Bool, true, false, List, [], ◌||◌, not, ltb, ◌≡◌, refl, arith,
  Option-cases, Bool-cases, inl, inr,
}
use expense_saas.Upload.{Upload, unmount, settle}
use expense_saas.Upload.Aborts.{IsHeld}
use expense_saas.AttachmentArea.{Outcome, done, aborted, unknown, failed}
use expense_saas.Uploader.Widget.{
  Widget, Call, is_pending, is_uploading, take_out_file, preview_file, handle_change,
  handle_drag_over, handle_drag_leave, report, upload_ends, end_widget, Event, change, drop,
  drag_over, drag_leave, take_out, preview, stop, answer, ended, live_step, step,
}
use expense_saas.Uploader.Widget.Reports.{
  told, ends, cancel-IsReported, settle-IsReported, settle-is_last,
}
use expense_saas.Uploader.Widget.Files.{
  After, Before, IsQuiet, quiet, handle_change-After, handle_drop-After,
}

told-report : (b : Bool) (o : Outcome) → told b (report o) ≡ false
unfolding told report
told-report b done = refl
told-report b aborted = refl
told-report b unknown = refl
told-report b (failed m) = refl

ends-report : (o : Outcome) → ends (report o) ≡ 1
unfolding ends report
ends-report done = refl
ends-report aborted = refl
ends-report unknown = refl
ends-report (failed m) = refl

-- The callbacks of an upload that ends.
abbrev callbacks : Outcome → Bool → List Call
callbacks o true = report o
callbacks o false = []

upload_ends-callbacks :
    (k : ℕ) (o : Outcome) (w : Widget)
    → w.upload.is_settled k || not (ltb k w.upload.started) ≡ false
    → w.upload.started ≡ suc k
    → upload_ends k o w ≡ (record w { upload = settle k w.upload }, callbacks o w.is_mounted)
unfolding upload_ends
upload_ends-callbacks k o w e last = ground (arith, e, last)

callbacks-flag : (o : Outcome) (m b : Bool) → m ≡ true → told b (callbacks o m) ≡ false
callbacks-flag o true b e = told-report b o
callbacks-flag o false b e = absurd (cc)

callbacks-one : (o : Outcome) (m : Bool) (n : ℕ) → m ≡ true → n + ends (callbacks o m) ≡ suc n
callbacks-one o true n e = ground (arith, ends-report o)
callbacks-one o false n e = absurd (cc)

callbacks-none : (o : Outcome) (m : Bool) (n : ℕ) → m ≡ false → n + ends (callbacks o m) ≡ n
unfolding ends
callbacks-none o true n e = absurd (cc)
callbacks-none o false n e = ground arith

upload_ends-After :
    (k : ℕ) (o : Outcome) (w : Widget) (b : Bool) (n : ℕ)
    → Before w b n
    → After (upload_ends k o w) b n
unfolding upload_ends told ends IsQuiet
upload_ends-After k o w b n h =
    elim (Bool-cases (w.upload.is_settled k || not (ltb k w.upload.started))) [
      | inl e ↦ quiet w (upload_ends k o w) b n (ground (arith, e)) h
      | inr e ↦
          let m = w.is_mounted in
          let last = settle-is_last w.upload k e h.earlier in
          rw (upload_ends-callbacks k o w e last) (
            settle-IsReported w.upload k m b n e h (told b (callbacks o m))
              (n + ends (callbacks o m)) (callbacks-flag o m b) (callbacks-one o m n)
              (callbacks-none o m n))
    ]

unmount-IsHeld : (u : Upload) → IsHeld u → IsHeld (unmount u)
unfolding unmount
unmount-IsHeld u h = record {
  running = λ k r. ground (arith, h.running k);
  one = λ j k x y. ground (arith, h.one j k);
  held = λ k e. ground (arith, h.held k);
  aborted = λ k e. ground (arith, h.aborted k, h.held k);
  settled = λ k e. ground (arith, h.settled k);
}

-- An upload that the controller belongs to is pending.
held-is_pending :
    (u : Upload) (k : ℕ)
    → IsHeld u
    → ((j : ℕ) → ltb (suc j) u.started ≡ true → u.is_settled j ≡ true)
    → u.controller ≡ some k
    → is_pending u ≡ true
unfolding is_pending
held-is_pending u k h earlier e = ground (arith, h.held k e, earlier k)

end_widget-bound :
    (w : Widget) (b : Bool) (n : ℕ)
    → w.is_mounted ≡ true
    → Before w b n
    → n + ends (end_widget w).1 ≤ w.upload.started
unfolding end_widget ends
end_widget-bound w b n m h = elim (Option-cases w.upload.controller) [
  | inl e ↦ ground (arith, e, h.bound)
  | inr (k, e) ↦ ground (arith, e, h.count m, held-is_pending w.upload k h.held h.earlier e)
]

end_widget-After :
    (w : Widget) (b : Bool) (n : ℕ) → w.is_mounted ≡ true → Before w b n → After (end_widget w) b n
unfolding end_widget unmount
end_widget-After w b n m h = record {
  held = unmount-IsHeld w.upload h.held;
  earlier = λ k lt. ground (arith, lt, h.earlier k);
  flag = λ e. absurd (cc);
  count = λ e. absurd (cc);
  bound = ground (arith, end_widget-bound w b n m h);
}

take_out_file-IsQuiet : (i : ℕ) (w : Widget) (b : Bool) → IsQuiet w (take_out_file i w) b
unfolding take_out_file told ends IsQuiet
take_out_file-IsQuiet i w b = (refl, refl, refl, refl)

preview_file-IsQuiet :
    (i : ℕ) (p : Bool) (w : Widget) (b : Bool) → IsQuiet w (w, preview_file i p w) b
unfolding preview_file told ends IsQuiet
preview_file-IsQuiet i p w b = ground arith

live_step-After :
    (e : Event) (w : Widget) (b : Bool) (n : ℕ)
    → w.is_mounted ≡ true
    → Before w b n
    → After (live_step e w) b n
unfolding live_step IsQuiet told ends handle_drag_over handle_drag_leave
live_step-After (change file) w b n m h = elim (Bool-cases (is_uploading w)) [
  | inl e ↦ quiet w (live_step (change file) w) b n (ground (arith, e)) h
  | inr e ↦
      let same : live_step (change file) w ≡ handle_change file w = ground (arith, e) in
      rw same (handle_change-After file w b n e m h)
]
live_step-After (drop file) w b n m h = handle_drop-After file w b n m h
live_step-After drag_over w b n m h = quiet w (live_step drag_over w) b n (ground arith) h
live_step-After (drag_leave i) w b n m h = quiet w (live_step (drag_leave i) w) b n (ground arith) h
live_step-After (take_out i) w b n m h =
    quiet w (live_step (take_out i) w) b n (ground (arith, take_out_file-IsQuiet i w b)) h
live_step-After (preview i p) w b n m h =
    quiet w (live_step (preview i p) w) b n (preview_file-IsQuiet i p w b) h
live_step-After stop w b n m h =
    let none_more : n + 0 ≡ n = ground arith in
    rw none_more (cancel-IsReported w.upload w.is_mounted b n h)
live_step-After (answer k o) w b n m h = upload_ends-After k o w b n h
live_step-After ended w b n m h = end_widget-After w b n m h

-- Behind the end of the component.
late_step-After :
    (e : Event) (w : Widget) (b : Bool) (n : ℕ)
    → w.is_mounted ≡ false
    → Before w b n
    → After (step e w) b n
unfolding step IsQuiet told ends
late_step-After (answer k o) w b n m h = upload_ends-After k o w b n h
late_step-After (change f) w b n m h = quiet w (step (change f) w) b n (ground (arith, m)) h
late_step-After (drop f) w b n m h = quiet w (step (drop f) w) b n (ground (arith, m)) h
late_step-After drag_over w b n m h = quiet w (step drag_over w) b n (ground (arith, m)) h
late_step-After (drag_leave i) w b n m h = quiet w (step (drag_leave i) w) b n (ground (arith, m)) h
late_step-After (take_out i) w b n m h = quiet w (step (take_out i) w) b n (ground (arith, m)) h
late_step-After (preview i p) w b n m h = quiet w (step (preview i p) w) b n (ground (arith, m)) h
late_step-After stop w b n m h = quiet w (step stop w) b n (ground (arith, m)) h
late_step-After ended w b n m h = quiet w (step ended w) b n (ground (arith, m)) h

live : (e : Event) (w : Widget) → w.is_mounted ≡ true → step e w ≡ live_step e w
unfolding step live_step
live (answer k o) w m = refl
live (change f) w m = ground (arith, m)
live (drop f) w m = ground (arith, m)
live drag_over w m = ground (arith, m)
live (drag_leave i) w m = ground (arith, m)
live (take_out i) w m = ground (arith, m)
live (preview i p) w m = ground (arith, m)
live stop w m = ground (arith, m)
live ended w m = ground (arith, m)

pub step-After : (e : Event) (w : Widget) (b : Bool) (n : ℕ) → Before w b n → After (step e w) b n
step-After e w b n h = elim (Bool-cases w.is_mounted) [
  | inl m ↦ rw (live e w m) (live_step-After e w b n m h)
  | inr m ↦ late_step-After e w b n m h
]
