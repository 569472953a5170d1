-- ===== src/AttachmentList/Outcomes.antt =====
-- What a click on a file comes to, and how exact the size beside it is.
use expense_saas.Prelude.{
  ℕ, suc, none, some, Bool, true, false, List, [], ◌∷◌, ◌+◌, ◌*◌, ◌≤◌, ◌≡◌, refl, arith, Bool-cases,
  ltb, inl, inr, ◌/◌,
}
use expense_saas.AttachmentList.{
  Refetch, resolved, rejected, Effect, open_tab, locate_tab, close_tab, download, on_error,
  handle_preview, handle_download, Size, bytes, kilobytes, tenths_of_megabytes, size_of,
}

-- How often an effect list reports an error, and shows or downloads the file.
abbrev pub errors : List Effect → ℕ
errors [] = 0
errors (on_error _ ∷ es) = suc (errors es)
errors (_ ∷ es) = errors es

abbrev pub shown : List Effect → ℕ
shown [] = 0
shown (locate_tab _ ∷ es) = suc (shown es)
shown (download _ _ ∷ es) = suc (shown es)
shown (_ ∷ es) = shown es

abbrev pub opened : List Effect → ℕ
opened [] = 0
opened (open_tab ∷ es) = suc (opened es)
opened (_ ∷ es) = opened es

abbrev pub closed : List Effect → ℕ
closed [] = 0
closed (close_tab ∷ es) = suc (closed es)
closed (_ ∷ es) = closed es

-- A click on the name of a file either shows the file in the one tab that stays open, or reports one
-- error and leaves no tab open; a download opens no tab, and either downloads the file or reports
-- one error.
pub handle_preview-handle_download :
    (is_blocked : Bool) (r : Refetch)
    → let p = handle_preview is_blocked r in
      let d = handle_download r in
      (shown p + errors p ≡ 1)
      × (opened p ≡ shown p + closed p)
      × (shown d + errors d ≡ 1)
      × (opened d ≡ 0)
unfolding handle_preview handle_download
handle_preview-handle_download true (resolved none error) = ground arith
handle_preview-handle_download true (resolved (some a) error) = ground arith
handle_preview-handle_download true (rejected error) = ground arith
handle_preview-handle_download false (resolved none error) = ground arith
handle_preview-handle_download false (resolved (some a) error) = ground arith
handle_preview-handle_download false (rejected error) = ground arith

-- A size is exact in bytes, and at most half a unit away from the number of bytes in the others.
abbrev pub Near : ℕ → Size → Type 0
Near b (bytes n) = n ≡ b
Near b (kilobytes n) = (b ≤ 1024 * n + 512) × (1024 * n ≤ b + 512)
Near b (tenths_of_megabytes n) = (10 * b ≤ 1048576 * n + 524288) × (1048576 * n ≤ 10 * b + 524288)

kilobytes-Near : (b : ℕ) → Near b (kilobytes ((b + 512) / 1024))
kilobytes-Near b = (omega arith, omega arith)

tenths-Near : (b : ℕ) → Near b (tenths_of_megabytes ((10 * b + 524288) / 1048576))
tenths-Near b = (omega arith, omega arith)

-- The size that is shown is the true one below 1024 bytes, and else at most half a kilobyte or half a
-- tenth of a megabyte away from it.
size_of-Near : (b : ℕ) → Near b (size_of b)
unfolding size_of
size_of-Near b = elim (Bool-cases (ltb b 1024)) [
  | inl h ↦ rw h refl
  | inr h ↦ rw h (elim (Bool-cases (ltb b (1024 * 1024))) [
    | inl k ↦ rw k (kilobytes-Near b)
    | inr k ↦ rw k (tenths-Near b)
  ])
]
