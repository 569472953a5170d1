-- ===== src/AttachmentArea/AddMode/Waiting.antt =====
-- AttachmentAreaAddMode and ItemSlidePanel.tsx: the files in the rows are those that a save sends.
use expense_saas.Prelude.{
  ℕ, Option, none, some, false, List, [], ◌∷◌, ◌++◌, ◌==◌, ◌≡◌, refl, arith, map, ap, sym, ◌∙◌,
  Option-cases, Bool-cases, inl, inr, ◌⊎◌,
}
use expense_saas.ItemPanel.{Panel, PanelMode}
use expense_saas.ItemPanel
use expense_saas.ItemPanel.AddMode
use expense_saas.Uploader.{
  File, Uploader, Browser, validate_file, handle_file, handle_pending_file_remove, revoke_all,
}
use expense_saas.Uploader
use expense_saas.Uploader.Lists.{distinct, below}
use expense_saas.Uploader.Urls.{
  IsOwned, IsNew, identities, handle_file-IsOwned, handle_pending_file_remove-IsOwned,
}
use expense_saas.Uploader.Leaks.{revoke_all-live}
use expense_saas.Uploader.Widget.{
  Widget, Call, keep_file, take_file, take_out_file, handle_change, handle_drop, clear_when_empty,
  end_widget, new_widget, is_uploading,
}
use expense_saas.Uploader.Widget
use expense_saas.AttachmentArea.AddMode.{
  Entry, panel_file, hear, hear_all, empty_uploader, mount_anew, render, choose, put_down, take_out,
  step,
}

abbrev pub panel_files : List File → List AddMode.File
panel_files files = map panel_file files

-- The panel knows the files in the rows; each has a URL of its own, and these are all the URLs.
pub record Agrees (s : Entry) : Type 0 where
  pub files : s.panel.pending_files ≡ panel_files s.widget.uploader.pending_files
  pub owned : IsOwned s.widget.uploader
  pub adds : s.widget.mode ≡ Widget.add
  pub panel_adds : s.panel.mode ≡ PanelMode.add
  pub mounted : s.key ≡ s.panel.attachment_reset_key

map-nil {ℓ κ} : {A : Type ℓ} {B : Type κ} (f : A → B) (xs : List A) → map f xs ≡ [] → xs ≡ []
map-nil f [] h = refl
map-nil f (x ∷ xs) h = absurd (cc)

-- The effect behind an empty list finds no URL.
pub clear_when_empty-owned : (s : Uploader) → IsOwned s → clear_when_empty s ≡ s
unfolding clear_when_empty revoke_all
clear_when_empty-owned s h = elim (nil_cases s.pending_files) [
  | inl e ↦
      let gone : s.urls ≡ [] = map-nil (λ (u : ℕ × ℕ). u.0) s.urls (h.files ∙ ap identities e) in
      ground (arith, e, gone)
  | inr (f, fs, e) ↦ ground (arith, e)
]
  where
    nil_cases : (l : List File) → (l ≡ []) ⊎ ((f : File) × (fs : List File) × (l ≡ f ∷ fs))
    nil_cases [] = inl refl
    nil_cases (f ∷ fs) = inr (f, fs, refl)

pub empty_uploader-IsOwned : (b : Browser) → b.live ≡ [] → IsOwned (empty_uploader b)
unfolding distinct below
empty_uploader-IsOwned b e = record {
  files = refl;
  live = sym e;
  once = refl;
  unshared = refl;
  numbered = refl;
}

pub unmount-live : (s : Uploader) → IsOwned s → (Uploader.unmount s).browser.live ≡ []
unfolding Uploader.unmount
unmount-live s h = revoke_all-live s.urls s.browser h.live h.unshared

pub mount_anew-Agrees :
    (s : Entry) → IsOwned s.widget.uploader → s.panel.mode ≡ PanelMode.add → Agrees (mount_anew s)
unfolding mount_anew hear ItemPanel.step new_widget end_widget
mount_anew-Agrees s h a = record {
  files = ground (arith, a);
  owned =
      empty_uploader-IsOwned (Uploader.unmount s.widget.uploader).browser
        (unmount-live s.widget.uploader h);
  adds = refl;
  panel_adds = ground (arith, a);
  mounted = ground (arith, a);
}

-- The uploader in the mode 'add' does to its files what the model of the waiting files does.
take_file-kept :
    (f : File) (w : Widget)
    → w.mode ≡ Widget.add
    → (take_file f w).0 ≡ record w { uploader = handle_file f w.uploader }
unfolding take_file keep_file handle_file
take_file-kept f w a = elim (Option-cases (validate_file f)) [
  | inl e ↦ ground (arith, a, e)
  | inr (m, e) ↦ ground (arith, a, e)
]

-- The panel has heard of every change of the list.
abbrev IsHeard : Entry → Entry → Type 0
IsHeard s t =
    (t.panel.pending_files ≡ panel_files t.widget.uploader.pending_files)
    × (t.panel.mode ≡ PanelMode.add)
    × (t.panel.attachment_reset_key ≡ s.panel.attachment_reset_key)
    × (t.key ≡ s.key)

take_file-IsHeard :
    (f : File) (s : Entry)
    → Agrees s
    → let r = take_file f s.widget in
      let t = hear_all r.1 (record s { widget = r.0 }) in IsHeard s t × (t.widget ≡ r.0)
unfolding take_file keep_file hear_all hear ItemPanel.step
take_file-IsHeard f s h = elim (Option-cases (validate_file f)) [
  | inl e ↦ ground (arith, h.adds, h.panel_adds, h.files, e)
  | inr (m, e) ↦ ground (arith, h.adds, h.panel_adds, h.files, e)
]

carried :
    (s t : Entry) (w : Widget)
    → Agrees s
    → IsHeard s t × (t.widget ≡ w)
    → w.mode ≡ Widget.add
    → IsOwned w.uploader
    → Agrees t
carried s t w h ((files, mode, key, mounted), same) a owned = record {
  files = files;
  owned = rw same owned;
  adds = ap (λ (v : Widget). v.mode) same ∙ a;
  panel_adds = mode;
  mounted = mounted ∙ h.mounted ∙ sym key;
}

hear_all-reset :
    (cs : List Call) (s : Entry) → hear_all (cs ++ Widget.reset_input ∷ []) s ≡ hear_all cs s
unfolding hear_all hear
hear_all-reset [] s = refl
hear_all-reset (c ∷ cs) s = hear_all-reset cs (hear c s)

take_file-Agrees :
    (f : File) (s : Entry)
    → IsNew f s.widget.uploader
    → Agrees s
    → let r = take_file f s.widget in Agrees (hear_all r.1 (record s { widget = r.0 }))
take_file-Agrees f s new h =
    let r = take_file f s.widget in
    let kept = take_file-kept f s.widget h.adds in
    carried s (hear_all r.1 (record s { widget = r.0 })) r.0 h (take_file-IsHeard f s h)
      (ap (λ (v : Widget). v.mode) kept ∙ h.adds)
      (rw kept (handle_file-IsOwned f s.widget.uploader new h.owned))

abbrev pub IsNewIn : Option File → Entry → Type 0
IsNewIn none s = Unit
IsNewIn (some f) s = IsNew f s.widget.uploader

pub choose-Agrees :
    (file : Option File) (s : Entry) → IsNewIn file s → Agrees s → Agrees (step (choose file) s)
unfolding step handle_change hear_all
choose-Agrees none s new h = h
choose-Agrees (some f) s new h =
    let r = take_file f s.widget in
    rw (hear_all-reset r.1 (record s { widget = r.0 })) (take_file-Agrees f s new h)

undragged-Agrees :
    (s : Entry) → Agrees s → Agrees (record s { widget = record s.widget { is_drag_over = false } })
undragged-Agrees s h = record {
  files = h.files;
  owned = h.owned;
  adds = h.adds;
  panel_adds = h.panel_adds;
  mounted = h.mounted;
}

pub put_down-Agrees :
    (file : Option File) (s : Entry) → IsNewIn file s → Agrees s → Agrees (step (put_down file) s)
unfolding step handle_drop hear_all is_uploading
put_down-Agrees none s new h =
    let left = record s.widget { is_drag_over = false } in
    let same : handle_drop none s.widget ≡ (left, []) = ground (arith, h.adds) in
    rw same (undragged-Agrees s h)
put_down-Agrees (some f) s new h =
    let left = record s { widget = record s.widget { is_drag_over = false } } in
    let same : handle_drop (some f) s.widget ≡ take_file f left.widget = ground (arith, h.adds) in
    rw same (take_file-Agrees f left new (undragged-Agrees s h))

pub take_out-Agrees : (n : ℕ) (s : Entry) → Agrees s → Agrees (step (take_out n) s)
unfolding step take_out_file hear_all hear ItemPanel.step
take_out-Agrees n s h =
    let left = handle_pending_file_remove n s.widget.uploader in
    let owned = handle_pending_file_remove-IsOwned n s.widget.uploader h.owned in
    let cleared = clear_when_empty-owned left owned in
    record {
      files = ground (arith, h.panel_adds, cleared);
      owned = rw cleared owned;
      adds = h.adds;
      panel_adds = ground (arith, h.panel_adds);
      mounted = ground (arith, h.panel_adds, h.mounted);
    }

-- A panel that keeps its key keeps its files, and one with another key has lost them.
pub render-Agrees :
    (p : Panel) (s : Entry)
    → Agrees s
    → p.mode ≡ PanelMode.add
    → (p.attachment_reset_key ≡ s.panel.attachment_reset_key
        → p.pending_files ≡ s.panel.pending_files)
    → Agrees (render (record s { panel = p }))
unfolding render
render-Agrees p s h a kept = elim (Bool-cases (p.attachment_reset_key == s.key)) [
  | inl e ↦
      let same_key : p.attachment_reset_key ≡ s.key = ground (arith, e) in
      rw e (record {
        files = kept (same_key ∙ h.mounted) ∙ h.files;
        owned = h.owned;
        adds = h.adds;
        panel_adds = a;
        mounted = sym same_key;
      })
  | inr e ↦ rw e (mount_anew-Agrees (record s { panel = p }) h.owned a)
]
