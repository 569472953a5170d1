-- ===== src/Uploader/Leaks.antt =====
-- AttachmentUploader.tsx: no object URL is leaked, and none is used when it is gone.
use expense_saas.Prelude.{ℕ, none, some, true, List, [], ◌∷◌, ◌≡◌, refl, arith, ap, sym, ◌∙◌}
use expense_saas.Uploader.{
  File, Uploader, Browser, without, at, drop_at, handle_file, handle_pending_file_remove,
  handle_pending_file_preview, unmount, revoke_all, revoke_object_url,
}
use expense_saas.Uploader.Urls.{
  IsOwned, IsNew, handle_file-IsOwned, handle_pending_file_remove-IsOwned,
}
use expense_saas.Uploader.Lists.{
  value_at, distinct, below, keys, values, at-map, without-at, get-at,
}

-- What happens to the files of a new item.
pub data Event : Type 0 where
  choose : (file : File) → Event
  take_out : (index : ℕ) → Event

abbrev pub step : Event → Uploader → Uploader
step (choose f) s = handle_file f s
step (take_out n) s = handle_pending_file_remove n s

unfoldable pub run : List Event → Uploader → Uploader
run [] s = s
run (e ∷ es) s = run es (step e s)

abbrev IsNewIn : Event → Uploader → Type 0
IsNewIn (choose f) s = IsNew f s
IsNewIn (take_out n) s = Unit

-- The browser makes a new object for each file that is chosen.
abbrev pub AreNew : List Event → Uploader → Type 0
AreNew [] s = Unit
AreNew (e ∷ es) s = IsNewIn e s × AreNew es (step e s)

abbrev pub new_uploader : Uploader
new_uploader = record {
  validation_error = none;
  pending_files = [];
  urls = [];
  browser = record { created = 0; live = [] };
}

new_uploader-IsOwned : IsOwned new_uploader
unfolding distinct below
new_uploader-IsOwned = record {
  files = refl;
  live = refl;
  once = refl;
  unshared = refl;
  numbered = refl;
}

step-IsOwned : (e : Event) (s : Uploader) → IsNewIn e s → IsOwned s → IsOwned (step e s)
step-IsOwned (choose f) s new h = handle_file-IsOwned f s new h
step-IsOwned (take_out n) s new h = handle_pending_file_remove-IsOwned n s h

run-IsOwned : (es : List Event) (s : Uploader) → AreNew es s → IsOwned s → IsOwned (run es s)
unfolding run
run-IsOwned [] s new h = h
run-IsOwned (e ∷ es) s new h = run-IsOwned es (step e s) new.1 (step-IsOwned e s new.0 h)

-- However files are chosen and taken out again, each a new object of the browser, the map holds
-- exactly the files that wait, in their order, each with a URL of its own, and these are all the
-- URLs that the browser holds for the uploader.
pub run-new_uploader-IsOwned :
    (es : List Event) → AreNew es new_uploader → IsOwned (run es new_uploader)
run-new_uploader-IsOwned es new = run-IsOwned es new_uploader new new_uploader-IsOwned

distinct-tail : (x : ℕ) (xs : List ℕ) → distinct (x ∷ xs) ≡ true → distinct xs ≡ true
unfolding distinct
distinct-tail x xs d = ground (arith, d)

first_gone : (u : ℕ) (vs : List ℕ) → distinct (u ∷ vs) ≡ true → without u (u ∷ vs) ≡ vs
unfolding at drop_at
first_gone u vs d = without-at u 0 (u ∷ vs) refl d

pub revoke_all-live :
    (m : List (ℕ × ℕ)) (b : Browser)
    → values m ≡ b.live
    → distinct (values m) ≡ true
    → (revoke_all m b).live ≡ []
unfolding revoke_all revoke_object_url
revoke_all-live [] b e d = sym e
revoke_all-live ((i, u) ∷ m) b e d =
    revoke_all-live m (revoke_object_url u b)
      (sym (ap (without u) (sym e) ∙ first_gone u (values m) d)) (distinct-tail u (values m) d)

-- When the component ends, the browser holds no URL for it any more, whatever files were chosen and
-- taken out before.
unmount-run :
    (es : List Event) → AreNew es new_uploader → (unmount (run es new_uploader)).browser.live ≡ []
unfolding unmount
unmount-run es new =
    let s = run es new_uploader in
    let h = run-new_uploader-IsOwned es new in revoke_all-live s.urls s.browser h.live h.unshared

-- A click on a file that waits opens the URL that the browser holds at the place of that file.
run-preview :
    (es : List Event) (n : ℕ) (f : File)
    → AreNew es new_uploader
    → let s = run es new_uploader in
      at n s.pending_files ≡ some f
      → (u : ℕ) × (handle_pending_file_preview f s ≡ some u) × (at n s.browser.live ≡ some u)
run-preview es n f new e =
    let s = run es new_uploader in
    let h = run-new_uploader-IsOwned es new in
    let key : at n (keys s.urls) ≡ some f.identity =
      ap (at n) h.files ∙ at-map (λ f. f.identity) n s.pending_files f e in
    let (u, value) = value_at f.identity n s.urls key in
    (u, get-at f.identity n s.urls key h.once ∙ value, ap (at n) (sym h.live) ∙ value)
