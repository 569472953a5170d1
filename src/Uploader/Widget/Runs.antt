-- ===== src/Uploader/Widget/Runs.antt =====
-- AttachmentUploader.tsx: whatever happens to the component, from its beginning to its end.
use expense_saas.Prelude.{
  ℕ, ◌+◌, String, Option, none, some, Bool, true, false, List, [], ◌∷◌, ◌++◌, ◌||◌, ltb, ◌≡◌, refl,
  arith, ◌∙◌, ap,
}
use expense_saas.Upload.{cancel}
use expense_saas.Uploader.{File, Uploader}
use expense_saas.Uploader.Widget.{
  Widget, Mode, is_pending, Event, change, drop, drag_over, drag_leave, take_out, preview, stop,
  answer, ended, step, run, new_widget, upload_ends, end_widget, live_step, take_file, keep_file,
  send_file, handle_change, handle_drop, handle_drag_over, handle_drag_leave, take_out_file,
}
use expense_saas.Uploader.Widget.Reports.{
  told, ends, told-append, ends-append, pending_count, new_upload-IsReported,
}
use expense_saas.Uploader.Widget.Handlers.{step-After}
use expense_saas.Uploader.Widget.Files.{After, Before}

run-After : (es : List Event) (w : Widget) (b : Bool) (n : ℕ) → Before w b n → After (run es w) b n
unfolding run told ends
run-After [] w b n h = let none_more : n + 0 ≡ n = ground arith in rw none_more h
run-After (e ∷ es) w b n h =
    let now = step e w in
    let later = run es now.0 in
    let told_on : told b (now.1 ++ later.1) ≡ told (told b now.1) later.1 =
      told-append b now.1 later.1 in
    let counted : n + ends (now.1 ++ later.1) ≡ n + ends now.1 + ends later.1 =
      ground (arith, ends-append now.1 later.1) in
    rw (told_on, counted)
      (run-After es now.0 (told b now.1) (n + ends now.1) (step-After e w b n h))

pub new_widget-After :
    (mode : Mode) (id : Option String) (s : Uploader) (es : List Event)
    → After (run es (new_widget mode id s)) false 0
unfolding new_widget
new_widget-After mode id s es = run-After es (new_widget mode id s) false 0 new_upload-IsReported

-- Whatever files are chosen, dropped, cancelled and answered, as long as the component is on the
-- screen: the parent was told last that an upload is under way exactly if one is, and each upload
-- that was started has been reported to it once, as a success, an error or an abort, but for the one
-- under way; and if the panel cancels now, nothing that was started runs on.
pub run-uploads_reported :
    (mode : Mode) (id : Option String) (s : Uploader) (es : List Event) (k : ℕ)
    → let r = run es (new_widget mode id s) in
      r.0.is_mounted ≡ true
      → ltb k r.0.upload.started ≡ true
      → let u = cancel r.0.upload in
        (told false r.1 ≡ is_pending r.0.upload)
        × (ends r.1 + pending_count r.0.upload ≡ r.0.upload.started)
        × (u.is_aborted k || u.is_settled k ≡ true)
unfolding cancel
run-uploads_reported mode id s es k m lt =
    let h = new_widget-After mode id s es in
    (h.flag m, ground (arith, h.count m), ground (arith, h.held.running k, lt))

late-silent :
    (e : Event) (w : Widget)
    → w.is_mounted ≡ false
    → ((step e w).1 ≡ []) × ((step e w).0.is_mounted ≡ false)
unfolding step upload_ends
late-silent (answer k o) w m = ground (arith, m)
late-silent (change f) w m = ground (arith, m)
late-silent (drop f) w m = ground (arith, m)
late-silent drag_over w m = ground (arith, m)
late-silent (drag_leave i) w m = ground (arith, m)
late-silent (take_out i) w m = ground (arith, m)
late-silent (preview i p) w m = ground (arith, m)
late-silent stop w m = ground (arith, m)
late-silent ended w m = ground (arith, m)

late-run : (es : List Event) (w : Widget) → w.is_mounted ≡ false → (run es w).1 ≡ []
unfolding run
late-run [] w m = refl
late-run (e ∷ es) w m =
    let now = late-silent e w m in rw (now.0, late-run es (step e w).0 now.1) refl

end_widget-told : (w : Widget) (b : Bool) → told b (end_widget w).1 ≡ b
unfolding end_widget told
end_widget-told w b = ground arith

-- The trace of a component that ends.
ended-trace :
    (w : Widget) (fs : List Event)
    → w.is_mounted ≡ true
    → (run (ended ∷ fs) w).1 ≡ (end_widget w).1 ++ []
unfolding run live_step step
ended-trace w fs m =
    let now : step ended w ≡ end_widget w = ground (arith, m) in
    let off : (end_widget w).0.is_mounted ≡ false = unfold end_widget in refl in
    rw (now, late-run fs (end_widget w).0 off) refl

-- A component that ends while an upload is pending never tells its parent that the upload is over,
-- whatever the server answers then: what the parent was told last stays that an upload is under way.
pub ended-told :
    (mode : Mode) (id : Option String) (s : Uploader) (es fs : List Event)
    → let a = run es (new_widget mode id s) in
      a.0.is_mounted ≡ true
      → is_pending a.0.upload ≡ true
      → told false (a.1 ++ (run (ended ∷ fs) a.0).1) ≡ true
ended-told mode id s es fs m p =
    let a = run es (new_widget mode id s) in
    let h = new_widget-After mode id s es in
    let now = end_widget a.0 in
    told-append false a.1 (run (ended ∷ fs) a.0).1
    ∙ ap (told (told false a.1)) (ended-trace a.0 fs m)
    ∙ told-append (told false a.1) now.1 []
    ∙ unfold told in (end_widget-told a.0 (told false a.1) ∙ h.flag m ∙ p)

take_file-mode : (f : File) (w : Widget) → (take_file f w).0.mode ≡ w.mode
unfolding take_file keep_file send_file
take_file-mode f w = ground arith

live_step-mode : (e : Event) (w : Widget) → (live_step e w).0.mode ≡ w.mode
unfolding live_step handle_change handle_drop handle_drag_over handle_drag_leave take_out_file
    upload_ends end_widget
live_step-mode (change none) w = ground arith
live_step-mode (change (some f)) w = ground (arith, take_file-mode f w)
live_step-mode (drop none) w = ground arith
live_step-mode (drop (some f)) w =
    ground (arith, take_file-mode f (record w { is_drag_over = false }))
live_step-mode drag_over w = ground arith
live_step-mode (drag_leave i) w = ground arith
live_step-mode (take_out i) w = ground arith
live_step-mode (preview i p) w = refl
live_step-mode stop w = refl
live_step-mode (answer k o) w = ground arith
live_step-mode ended w = refl

step-mode : (e : Event) (w : Widget) → (step e w).0.mode ≡ w.mode
unfolding step live_step
step-mode (answer k o) w = live_step-mode (answer k o) w
step-mode (change f) w = ground (arith, live_step-mode (change f) w)
step-mode (drop f) w = ground (arith, live_step-mode (drop f) w)
step-mode drag_over w = ground (arith, live_step-mode drag_over w)
step-mode (drag_leave i) w = ground (arith, live_step-mode (drag_leave i) w)
step-mode (take_out i) w = ground (arith, live_step-mode (take_out i) w)
step-mode (preview i p) w = ground (arith, live_step-mode (preview i p) w)
step-mode stop w = ground (arith, live_step-mode stop w)
step-mode ended w = ground (arith, live_step-mode ended w)

pub run-mode : (es : List Event) (w : Widget) → (run es w).0.mode ≡ w.mode
unfolding run
run-mode [] w = refl
run-mode (e ∷ es) w = run-mode es (step e w).0 ∙ step-mode e w
