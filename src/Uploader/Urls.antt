-- ===== src/Uploader/Urls.antt =====
-- AttachmentUploader.tsx: the object URLs of the files that wait.
use expense_saas.Prelude.{
  ℕ, suc, String, none, some, true, false, List, [], ◌∷◌, ◌++◌, ◌≡◌, refl, arith, map, ap,
  Option-cases, inl, inr, sym, ◌∙◌,
}
use expense_saas.Uploader.{
  File, Uploader, set, get, remove, without, at, drop_at, handle_file, handle_pending_file_remove,
  create_object_url, revoke_object_url, validate_file,
}
use expense_saas.Uploader.Lists.{
  member, distinct, below, keys, values, map-append, set-fresh, distinct-append, below-append,
  below-member, at-map, drop_at-map, distinct-drop_at, below-drop_at, without-at, remove-at, get-at,
  at-map-none, drop_at-past, value_at,
}

abbrev pub identities : List File → List ℕ
identities files = map (λ f. f.identity) files

-- The files that wait are the keys of the map, in their order, and its values are the URLs that the
-- browser holds.
pub record IsOwned (s : Uploader) : Type 0 where
  pub files : keys s.urls ≡ identities s.pending_files
  pub live : values s.urls ≡ s.browser.live
  pub once : distinct (keys s.urls) ≡ true
  pub unshared : distinct (values s.urls) ≡ true
  pub numbered : below s.browser.created (values s.urls) ≡ true

abbrev pub IsNew : File → Uploader → Type 0
IsNew f s = member f.identity (identities s.pending_files) ≡ false

-- A file is added with the next URL.
abbrev added : File → Uploader → Uploader
added f s = record {
  validation_error = none;
  pending_files = s.pending_files ++ f ∷ [];
  urls = s.urls ++ (f.identity, s.browser.created) ∷ [];
  browser = record {
    created = suc s.browser.created;
    live = s.browser.live ++ s.browser.created ∷ [];
  };
}

added-IsOwned : (f : File) (s : Uploader) → IsNew f s → IsOwned s → IsOwned (added f s)
added-IsOwned f s new h =
    let k = f.identity in
    let u = s.browser.created in
    let ks = map-append (λ e. e.0) s.urls ((k, u) ∷ []) in
    let vs = map-append (λ e. e.1) s.urls ((k, u) ∷ []) in
    let unknown : member k (keys s.urls) ≡ false = ap (member k) h.files ∙ new in
    let unused = below-member u (values s.urls) h.numbered in
    record {
      files =
          ks
          ∙ ap (λ l. l ++ k ∷ []) h.files
          ∙ sym (map-append (λ f. f.identity) s.pending_files (f ∷ []));
      live = vs ∙ ap (λ l. l ++ u ∷ []) h.live;
      once = ap distinct ks ∙ distinct-append k (keys s.urls) h.once unknown;
      unshared = ap distinct vs ∙ distinct-append u (values s.urls) h.unshared unused;
      numbered = ap (below (suc u)) vs ∙ below-append u (values s.urls) h.numbered;
    }

handle_file-added :
    (f : File) (s : Uploader)
    → validate_file f ≡ none
    → set f.identity s.browser.created s.urls ≡ s.urls ++ (f.identity, s.browser.created) ∷ []
    → handle_file f s ≡ added f s
unfolding handle_file create_object_url
handle_file-added f s e grown = ground (arith, e, grown)

handle_file-refused :
    (f : File) (s : Uploader) (m : String)
    → validate_file f ≡ some m
    → handle_file f s ≡ record s { validation_error = some m }
unfolding handle_file
handle_file-refused f s m e = ground (arith, e)

pub handle_file-IsOwned :
    (f : File) (s : Uploader) → IsNew f s → IsOwned s → IsOwned (handle_file f s)
handle_file-IsOwned f s new h = elim (Option-cases (validate_file f)) [
  | inl e ↦
      let grown =
        set-fresh f.identity s.browser.created s.urls (ap (member f.identity) h.files ∙ new) in
      rw (handle_file-added f s e grown) (added-IsOwned f s new h)
  | inr (m, e) ↦ rw (handle_file-refused f s m e) (record {
    files = h.files;
    live = h.live;
    once = h.once;
    unshared = h.unshared;
    numbered = h.numbered;
  })
]

-- The file at an index is taken out, and its URL with it.
abbrev dropped : ℕ → Uploader → Uploader
dropped n s = record s {
  pending_files = drop_at n s.pending_files;
  urls = drop_at n s.urls;
  browser = record s.browser { live = drop_at n s.browser.live };
}

dropped-IsOwned : (n : ℕ) (s : Uploader) → IsOwned s → IsOwned (dropped n s)
dropped-IsOwned n s h =
    let ks = drop_at-map (λ e. e.0) n s.urls in
    let vs = drop_at-map (λ e. e.1) n s.urls in
    record {
      files = ks ∙ ap (drop_at n) h.files ∙ sym (drop_at-map (λ f. f.identity) n s.pending_files);
      live = vs ∙ ap (drop_at n) h.live;
      once = ap distinct ks ∙ distinct-drop_at n (keys s.urls) h.once;
      unshared = ap distinct vs ∙ distinct-drop_at n (values s.urls) h.unshared;
      numbered =
          ap (below s.browser.created) vs
          ∙ below-drop_at s.browser.created n (values s.urls) h.numbered;
    }

removed_some :
    (n : ℕ) (f : File) (u : ℕ) (s : Uploader)
    → at n s.pending_files ≡ some f
    → get f.identity s.urls ≡ some u
    → handle_pending_file_remove n s ≡ record {
      validation_error = s.validation_error;
      pending_files = drop_at n s.pending_files;
      urls = remove f.identity s.urls;
      browser = record { created = s.browser.created; live = without u s.browser.live };
    }
unfolding handle_pending_file_remove revoke_object_url
removed_some n f u s e g = ground (arith, e, g)

removed_none :
    (n : ℕ) (s : Uploader)
    → at n s.pending_files ≡ none
    → handle_pending_file_remove n s ≡ record s { pending_files = drop_at n s.pending_files }
unfolding handle_pending_file_remove
removed_none n s e = ground (arith, e)

-- A removal takes out just the file at the index, with its URL.
removed-dropped :
    (n : ℕ) (f : File) (s : Uploader)
    → at n s.pending_files ≡ some f
    → IsOwned s
    → handle_pending_file_remove n s ≡ dropped n s
removed-dropped n f s e h =
    let k = f.identity in
    let key : at n (keys s.urls) ≡ some k =
      ap (at n) h.files ∙ at-map (λ f. f.identity) n s.pending_files f e in
    let (u, value) = value_at k n s.urls key in
    let found = get-at k n s.urls key h.once ∙ value in
    let gone = remove-at k n s.urls key h.once in
    let revoked : without u s.browser.live ≡ drop_at n s.browser.live =
      ap (without u) (sym h.live)
      ∙ without-at u n (values s.urls) value h.unshared
      ∙ ap (drop_at n) h.live in
    rw (removed_some n f u s e found, gone, revoked) refl

pub handle_pending_file_remove-IsOwned :
    (n : ℕ) (s : Uploader) → IsOwned s → IsOwned (handle_pending_file_remove n s)
handle_pending_file_remove-IsOwned n s h = elim (Option-cases (at n s.pending_files)) [
  | inl e ↦ rw (removed_none n s e) (record {
    files =
        h.files
        ∙ sym (
            ap identities (
              drop_at-past (λ f. f.identity) n s.pending_files
                (at-map-none (λ f. f.identity) n s.pending_files e)));
    live = h.live;
    once = h.once;
    unshared = h.unshared;
    numbered = h.numbered;
  })
  | inr (f, e) ↦ rw (removed-dropped n f s e h) (dropped-IsOwned n s h)
]
