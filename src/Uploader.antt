-- ===== src/Uploader.antt =====
-- frontend/src/pages/reports/AttachmentUploader.tsx: the check of a file, and the files that wait
-- in a new item with their object URLs. frontend/src/lib/format.ts.
pub mod Lists
pub mod Urls
pub mod Leaks
pub mod Widget
mod Tests
use expense_saas.Prelude.{
  ℕ, zero, suc, String, Option, none, some, Bool, List, [], ◌∷◌, ◌++◌, ◌==◌, ◌||◌, ltb, str_eq,
  if◌then◌else◌,
}

pub record File : Type 0 where
  -- which object of the browser it is
  pub identity : ℕ
  pub mime_type : String
  pub size : ℕ

-- ALLOWED_MIME_TYPES
abbrev pub is_allowed_mime_type : String → Bool
is_allowed_mime_type t = str_eq t "image/jpeg" || str_eq t "image/png" || str_eq t "application/pdf"

-- MAX_FILE_SIZE_BYTES
abbrev pub max_file_size_bytes : ℕ
max_file_size_bytes = 5242880

unfoldable pub validate_file : File → Option String
validate_file f =
    if is_allowed_mime_type f.mime_type
    then if ltb max_file_size_bytes f.size then some "ファイルサイズは5MB以下にしてください" else none
    else some "JPEG, PNG, PDF のみアップロード可能です"

-- The URLs that the browser has handed out and not taken back. They are numbered.
pub record Browser : Type 0 where
  pub created : ℕ
  pub live : List ℕ

unfoldable pub create_object_url : Browser → ℕ × Browser
create_object_url b =
    (b.created, record { created = suc b.created; live = b.live ++ b.created ∷ [] })

-- The URL is taken back.
unfoldable pub without : ℕ → List ℕ → List ℕ
without u [] = []
without u (v ∷ vs) = let rest = without u vs in if u == v then rest else v ∷ rest

unfoldable pub revoke_object_url : ℕ → Browser → Browser
unfolding without
revoke_object_url u b = record b { live = without u b.live }

-- The uploader of a new item (mode 'add').
pub record Uploader : Type 0 where
  pub validation_error : Option String
  pub pending_files : List File
  -- pendingObjectUrlsRef, by the identity of the file
  pub urls : List (ℕ × ℕ)
  pub browser : Browser

-- Map.get, Map.set and Map.delete.
unfoldable pub get : ℕ → List (ℕ × ℕ) → Option ℕ
get k [] = none
get k ((i, u) ∷ m) = let rest = get k m in if k == i then some u else rest

unfoldable pub remove : ℕ → List (ℕ × ℕ) → List (ℕ × ℕ)
remove k [] = []
remove k ((i, u) ∷ m) = let rest = remove k m in if k == i then rest else (i, u) ∷ rest

unfoldable pub set : ℕ → ℕ → List (ℕ × ℕ) → List (ℕ × ℕ)
set k u [] = (k, u) ∷ []
set k u ((i, v) ∷ m) = let rest = set k u m in if k == i then (i, u) ∷ m else (i, v) ∷ rest

-- handleFile in the mode 'add'.
unfoldable pub handle_file : File → Uploader → Uploader
unfolding validate_file create_object_url set
handle_file f s = elim (validate_file f) [
  | some error ↦ record s { validation_error = some error }
  | none ↦
      let made = create_object_url s.browser in
      record {
        validation_error = none;
        pending_files = s.pending_files ++ f ∷ [];
        urls = set f.identity made.0 s.urls;
        browser = made.1;
      }
]

-- `files[index]`
unfoldable pub at {ℓ} : {A : Type ℓ} → (index : ℕ) → List A → Option A
at n [] = none
at zero (x ∷ xs) = some x
at (suc n) (x ∷ xs) = at n xs

-- `prev.filter((_, i) => i !== index)`
unfoldable pub drop_at {ℓ} : {A : Type ℓ} → (index : ℕ) → List A → List A
drop_at n [] = []
drop_at zero (x ∷ xs) = xs
drop_at (suc n) (x ∷ xs) = x ∷ drop_at n xs

-- handlePendingFileRemove
unfoldable pub handle_pending_file_remove : (index : ℕ) → Uploader → Uploader
unfolding at drop_at get remove revoke_object_url
handle_pending_file_remove index s =
    let rest = drop_at index s.pending_files in
    elim (at index s.pending_files) [
      | none ↦ record s { pending_files = rest }
      | some f ↦ elim (get f.identity s.urls) [
        | none ↦ record s { pending_files = rest }
        | some u ↦ record s {
          pending_files = rest;
          urls = remove f.identity s.urls;
          browser = revoke_object_url u s.browser;
        }
      ]
    ]

-- The URL that a click on a file opens.
abbrev pub handle_pending_file_preview : File → Uploader → Option ℕ
handle_pending_file_preview f s = get f.identity s.urls

unfoldable pub revoke_all : List (ℕ × ℕ) → Browser → Browser
unfolding revoke_object_url
revoke_all [] b = b
revoke_all ((i, u) ∷ m) b = revoke_all m (revoke_object_url u b)

-- The effect behind the end of the component.
unfoldable pub unmount : Uploader → Uploader
unfolding revoke_all
unmount s = record s { urls = []; browser = revoke_all s.urls s.browser }
