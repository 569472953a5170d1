-- ===== src/AttachmentList.antt =====
-- frontend/src/pages/reports/AttachmentList.tsx: the preview and the download of a file, and
-- formatFileSize of frontend/src/lib/format.ts.
pub mod Outcomes
pub mod Display
mod Tests
use expense_saas.Prelude.{
  ℕ, String, Option, none, some, Bool, true, false, List, [], ◌∷◌, ◌++◌, ◌+◌, ◌*◌, ◌/◌, ◌%◌, ltb,
  truthy, str_eq, if◌then◌else◌,
}
use expense_saas.Texts.{Chars, codes, string}

-- AttachmentAccess
pub record Access : Type 0 where
  pub url : String
  pub file_name : String

-- How `refetch()` ends. A query that fails again keeps the data of its last success beside the error;
-- `error` is the message of an Error.
pub data Refetch : Type 0 where
  resolved : (answer : Option Access) (error : Option String) → Refetch
  rejected : (error : Option String) → Refetch

pub data Effect : Type 0 where
  -- window.open('about:blank', '_blank'), the new location of that tab, and its end
  open_tab : Effect
  locate_tab : (url : String) → Effect
  close_tab : Effect
  -- the link that is clicked
  download : (url file_name : String) → Effect
  on_error : (message : String) → Effect

abbrev message_or : String → Option String → String
message_or fallback none = fallback
message_or fallback (some message) = message

abbrev url_of : Option Access → Option Access
url_of none = none
url_of (some a) = if truthy a.url then some a else none

abbrev located : Option Access → Option String → List Effect
located (some a) error = locate_tab a.url ∷ []
located none error = close_tab ∷ on_error (message_or "プレビューの取得に失敗しました" error) ∷ []

unfoldable pub preview_ends : Refetch → List Effect
preview_ends (resolved answer error) = located (url_of answer) error
preview_ends (rejected error) = close_tab ∷ on_error (message_or "プレビューの取得に失敗しました" error) ∷ []

-- handlePreview; the browser may refuse the tab.
unfoldable pub handle_preview : (is_blocked : Bool) → Refetch → List Effect
unfolding preview_ends
handle_preview true r = on_error "ポップアップがブロックされました。ブラウザ設定を確認してください" ∷ []
handle_preview false r = open_tab ∷ preview_ends r

abbrev clicked : Option Access → Option String → List Effect
clicked (some a) error = download a.url a.file_name ∷ []
clicked none error = on_error (message_or "ダウンロードの取得に失敗しました" error) ∷ []

-- handleDownload
unfoldable pub handle_download : Refetch → List Effect
handle_download (resolved answer error) = clicked (url_of answer) error
handle_download (rejected error) = on_error (message_or "ダウンロードの取得に失敗しました" error) ∷ []

-- isDisabled: the row is being deleted.
unfoldable pub is_disabled : (deleting_id : Option String) (id : String) → Bool
is_disabled none id = false
is_disabled (some deleting) id = str_eq deleting id

-- The number that formatFileSize shows: bytes, rounded kilobytes, or rounded tenths of a megabyte.
pub data Size : Type 0 where
  bytes kilobytes tenths_of_megabytes : (n : ℕ) → Size

-- `Math.round(b / 1024)` and `(b / (1024 * 1024)).toFixed(1)` round a half up.
unfoldable pub size_of : ℕ → Size
size_of b =
    if ltb b 1024
    then bytes b
    else if ltb b (1024 * 1024)
    then kilobytes ((b + 512) / 1024)
    else tenths_of_megabytes ((10 * b + 524288) / 1048576)

abbrev size_text : Size → Chars
size_text (bytes n) = string n ++ codes " B"
size_text (kilobytes n) = string n ++ codes " KB"
size_text (tenths_of_megabytes n) = string (n / 10) ++ codes "." ++ string (n % 10) ++ codes " MB"

-- formatFileSize
unfoldable pub format_file_size : ℕ → Chars
unfolding size_of string
format_file_size b = size_text (size_of b)
