-- ===== src/AttachmentArea/AddMode/Runs.antt =====
-- AttachmentAreaAddMode and ItemSlidePanel.tsx: a new item, from its beginning to its save.
use expense_saas.ItemPanel.AddMode.Uploads.{handle_add_mode_submit-completes}
use expense_saas.ItemPanel.AddMode.Loop.{NeverAborts}
use expense_saas.ItemPanel.AddMode.Counts.{posted}
use expense_saas.ItemForm.{ItemFormValues}
use expense_saas.Prelude.{String, Bool, true, false, List, [], ◌∷◌, ◌≡◌, refl, arith, map, ap, ◌∙◌}
use expense_saas.ItemPanel.{
  Panel, PanelMode, dirty_change, close_attempt, discard, discard_cancel, closed, apply,
  reset_dirty,
}
use expense_saas.ItemPanel
use expense_saas.ItemPanel.AddMode.{Effect, World, handle_add_mode_submit}
use expense_saas.ItemPanel.AddMode
use expense_saas.Uploader.{Uploader}
use expense_saas.Uploader
use expense_saas.Uploader.Urls.{IsOwned}
use expense_saas.Uploader.Widget.{clear_when_empty, end_widget, new_widget}
use expense_saas.AttachmentArea.AddMode.{
  Entry, panel_file, hear, mount_anew, render, Event, choose, put_down, take_out, form_change,
  press_close, press_discard, press_keep, panel_closed, saving, close_toast, step, run, new_entry,
}
use expense_saas.AttachmentArea.AddMode.Waiting.{
  Agrees, panel_files, IsNewIn, choose-Agrees, put_down-Agrees, take_out-Agrees, render-Agrees,
  clear_when_empty-owned, mount_anew-Agrees, unmount-live, empty_uploader-IsOwned,
}

-- What a step of the panel may do: it keeps the mode, and with the key the files.
abbrev KeepsFiles : Panel → Panel → Type 0
KeepsFiles p q =
    (p.mode ≡ PanelMode.add → q.mode ≡ PanelMode.add)
    × (q.attachment_reset_key ≡ p.attachment_reset_key → q.pending_files ≡ p.pending_files)

close-KeepsFiles : (p : Panel) → KeepsFiles p (ItemPanel.step close_attempt p).0
unfolding ItemPanel.step
close-KeepsFiles p = (λ a. ground (arith, a), λ k. ground (arith, k))

discard-KeepsFiles : (p : Panel) → KeepsFiles p (ItemPanel.step discard p).0
unfolding ItemPanel.step
discard-KeepsFiles p = (λ a. ground (arith, a), λ k. ground (arith, k))

discard_cancel-KeepsFiles : (p : Panel) → KeepsFiles p (ItemPanel.step discard_cancel p).0
unfolding ItemPanel.step
discard_cancel-KeepsFiles p = (λ a. ground (arith, a), λ k. ground (arith, k))

closed-KeepsFiles : (p : Panel) → KeepsFiles p (ItemPanel.step closed p).0
unfolding ItemPanel.step
closed-KeepsFiles p = (λ a. ground (arith, a), λ k. ground (arith, k))

apply-KeepsFiles : (e : Effect) (p : Panel) → KeepsFiles p (apply e p)
unfolding apply reset_dirty
apply-KeepsFiles AddMode.reset_dirty_state p = (λ a. a, λ k. ground (arith, k))
apply-KeepsFiles _ p = (λ a. a, λ k. refl)

panel-Agrees :
    (p : Panel) (s : Entry)
    → KeepsFiles s.panel p
    → Agrees s
    → Agrees (render (record s { panel = p }))
panel-Agrees p s kept h = render-Agrees p s h (kept.0 h.panel_adds) kept.1

abbrev IsNewFor : Event → Entry → Type 0
IsNewFor (choose file) s = IsNewIn file s
IsNewFor (put_down file) s = IsNewIn file s
IsNewFor _ s = Unit {0}

-- The browser makes a new object for each file.
abbrev pub AreNew : List Event → Entry → Type 0
AreNew [] s = Unit {0}
AreNew (e ∷ es) s = IsNewFor e s × AreNew es (step e s)

step-Agrees : (e : Event) (s : Entry) → IsNewFor e s → Agrees s → Agrees (step e s)
unfolding step ItemPanel.step
step-Agrees (choose file) s new h = choose-Agrees file s new h
step-Agrees (put_down file) s new h = put_down-Agrees file s new h
step-Agrees (take_out n) s new h = take_out-Agrees n s h
step-Agrees (form_change b) s new h =
    panel-Agrees (ItemPanel.step (dirty_change b) s.panel).0 s (λ a. a, λ k. refl) h
step-Agrees press_close s new h =
    panel-Agrees (ItemPanel.step close_attempt s.panel).0 s (close-KeepsFiles s.panel) h
step-Agrees press_discard s new h =
    panel-Agrees (ItemPanel.step discard s.panel).0 s (discard-KeepsFiles s.panel) h
step-Agrees press_keep s new h =
    panel-Agrees (ItemPanel.step discard_cancel s.panel).0 s (discard_cancel-KeepsFiles s.panel) h
step-Agrees panel_closed s new h =
    panel-Agrees (ItemPanel.step closed s.panel).0 s (closed-KeepsFiles s.panel) h
step-Agrees (saving e) s new h = panel-Agrees (apply e s.panel) s (apply-KeepsFiles e s.panel) h
step-Agrees close_toast s new h = record {
  files = h.files;
  owned = h.owned;
  adds = h.adds;
  panel_adds = h.panel_adds;
  mounted = h.mounted;
}

run-Agrees : (es : List Event) (s : Entry) → AreNew es s → Agrees s → Agrees (run es s)
unfolding run
run-Agrees [] s new h = h
run-Agrees (e ∷ es) s new h = run-Agrees es (step e s) new.1 (step-Agrees e s new.0 h)

new_entry-Agrees : Agrees new_entry
unfolding new_entry new_widget
new_entry-Agrees = record {
  files = refl;
  owned = empty_uploader-IsOwned (record { created = 0; live = [] }) refl;
  adds = refl;
  panel_adds = refl;
  mounted = refl;
}

map-map {ℓ κ μ} :
    {A : Type ℓ} {B : Type κ} {C : Type μ} (f : A → B) (g : B → C) (xs : List A)
    → map g (map f xs) ≡ map (λ x. g (f x)) xs
map-map f g [] = refl
map-map f g (x ∷ xs) = ap (λ l. g (f x) ∷ l) (map-map f g xs)

-- Whatever the user does with a new item, each file chosen being a new object of the browser: a save
-- that creates the item and is not aborted sends exactly the files in the rows on the screen, in
-- their order; each row has a URL of its own, and the browser holds no other; and the effect that
-- clears the URLs of an empty list never finds one.
pub run-sends_rows :
    (es : List Event) (w : World) (input : ItemFormValues) (item : String)
    → AreNew es new_entry
    → NeverAborts w item
    → let t = run es new_entry in
      let rows = t.widget.uploader in
      (posted (handle_add_mode_submit w input t.panel.pending_files)
        ≡ map (λ f. (item, panel_file f)) rows.pending_files)
      × IsOwned rows
      × (clear_when_empty rows ≡ rows)
run-sends_rows es w input item new never =
    let t = run es new_entry in
    let h = run-Agrees es new_entry new new_entry-Agrees in
    let sent = (handle_add_mode_submit-completes w input t.panel.pending_files item never).0 in
    (
      sent
          ∙ ap (map (λ f. (item, f))) h.files
          ∙ map-map panel_file (λ f. (item, f)) t.widget.uploader.pending_files,
      h.owned,
      clear_when_empty-owned t.widget.uploader h.owned,
    )

-- The steps that throw the waiting files away.
abbrev pub throws_away : Event → Panel → Bool
throws_away press_discard p = p.is_discard_dialog_open
throws_away panel_closed p = true
throws_away (saving AddMode.reset_dirty_state) p = true
throws_away _ p = false

step-key :
    (e : Event) (s : Entry)
    → throws_away e s.panel ≡ true
    → s.key ≡ s.panel.attachment_reset_key
    → (p : Panel) × (step e s ≡ mount_anew (record s { panel = p })) × (p.mode ≡ s.panel.mode)
unfolding step ItemPanel.step render apply reset_dirty
step-key press_discard s h k =
    ((ItemPanel.step discard s.panel).0, ground (arith, h, k), ground (arith, h))
step-key panel_closed s h k = (reset_dirty s.panel, ground (arith, k), refl)
step-key (saving AddMode.reset_dirty_state) s h k = (reset_dirty s.panel, ground (arith, k), refl)
step-key _ s h k = absurd (cc)

mount_anew-empty :
    (s : Entry)
    → ((mount_anew s).widget.uploader.pending_files ≡ [])
      × ((mount_anew s).widget.uploader.browser.live
          ≡ (Uploader.unmount s.widget.uploader).browser.live)
unfolding mount_anew hear new_widget end_widget
mount_anew-empty s = (refl, refl)

-- Whenever the user agrees to lose the input, the panel is closed, or a save is through, no file
-- waits any more, neither in the rows nor in the panel, and the browser holds no URL of one: also a
-- file that was chosen while the save was under way is gone.
pub run-emptied :
    (es : List Event) (e : Event)
    → AreNew es new_entry
    → throws_away e (run es new_entry).panel ≡ true
    → let t = step e (run es new_entry) in
      (t.widget.uploader.pending_files ≡ [])
      × (t.widget.uploader.browser.live ≡ [])
      × (t.panel.pending_files ≡ [])
run-emptied es e new thrown =
    let s = run es new_entry in
    let h = run-Agrees es new_entry new new_entry-Agrees in
    let (p, same, mode) = step-key e s thrown h.mounted in
    let rest = record s { panel = p } in
    let (no_rows, live) = mount_anew-empty rest in
    let anew = mount_anew-Agrees rest h.owned (mode ∙ h.panel_adds) in
    rw same
      (no_rows, live ∙ unmount-live s.widget.uploader h.owned, anew.files ∙ ap panel_files no_rows)
