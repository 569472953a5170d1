-- ===== src/Messages.antt =====
-- frontend/src/lib/error-messages.ts and frontend/src/lib/constants.ts: the error codes of the
-- API, the text shown for each, and the code that a status stands for.
pub mod Coverage
mod Tests
use expense_saas.Prelude.{
  ℕ, String, Option, none, some, List, [], ◌∷◌, ◌==◌, ◌||◌, str_eq, if◌then◌else◌,
}

-- ERROR_CODES
unfoldable pub error_codes : List String
error_codes =
    "BAD_REQUEST" ∷ "VALIDATION_ERROR" ∷ "UNAUTHORIZED" ∷ "INVALID_CREDENTIALS" ∷ "INVALID_TOKEN"
    ∷ "TOKEN_EXPIRED" ∷ "FORBIDDEN" ∷ "SELF_APPROVAL_NOT_ALLOWED" ∷ "SELF_PAYMENT_NOT_ALLOWED"
    ∷ "RESOURCE_NOT_FOUND" ∷ "CONFLICT" ∷ "FILE_TOO_LARGE" ∷ "INVALID_STATE_TRANSITION"
    ∷ "REPORT_NOT_EDITABLE" ∷ "REPORT_NOT_DELETABLE" ∷ "EMPTY_REPORT_SUBMISSION"
    ∷ "NO_APPROVER_IN_TENANT" ∷ "INVALID_PERIOD" ∷ "INVALID_AMOUNT" ∷ "INVALID_FILE_TYPE"
    ∷ "MISSING_REJECTION_REASON" ∷ "RATE_LIMIT_EXCEEDED" ∷ "INTERNAL_ERROR" ∷ []

abbrev pub internal_error_message : String
internal_error_message = "サーバーとの通信に失敗しました。しばらくしてから再度お試しください。"

abbrev pub validation_error_message : String
validation_error_message = "入力内容に誤りがあります。各項目を確認してください。"

-- SERVER_ERROR_MESSAGES: its own keys, in the order of the source.
unfoldable pub server_error_messages : List (String × String)
server_error_messages =
    ("BAD_REQUEST", "リクエストの形式が正しくありません。")
    ∷ ("VALIDATION_ERROR", validation_error_message)
    ∷ ("UNAUTHORIZED", "認証が必要です。再度ログインしてください。")
    ∷ ("INVALID_CREDENTIALS", "メールアドレスまたはパスワードが正しくありません")
    ∷ ("INVALID_TOKEN", "認証情報が無効です。再度ログインしてください。")
    ∷ ("TOKEN_EXPIRED", "認証の有効期限が切れました。再度ログインしてください。")
    ∷ ("FORBIDDEN", "この操作を行う権限がありません。")
    ∷ ("SELF_APPROVAL_NOT_ALLOWED", "自分のレポートは承認できません")
    ∷ ("SELF_PAYMENT_NOT_ALLOWED", "自分が作成したレポートの支払完了は記録できません")
    ∷ ("RESOURCE_NOT_FOUND", "指定されたデータが見つかりません。")
    ∷ ("CONFLICT", "他のユーザーがこのレポートを更新しました。ページを再読み込みしてください。")
    ∷ ("FILE_TOO_LARGE", "ファイルサイズは5MB以下にしてください")
    ∷ ("INVALID_STATE_TRANSITION", "この状態遷移は許可されていません。")
    ∷ ("REPORT_NOT_EDITABLE", "提出済みのレポートは編集できません")
    ∷ ("REPORT_NOT_DELETABLE", "提出済みのレポートは削除できません")
    ∷ ("EMPTY_REPORT_SUBMISSION", "明細を1件以上追加してから提出してください")
    ∷ ("NO_APPROVER_IN_TENANT", "承認者が登録されていないため提出できません")
    ∷ ("INVALID_PERIOD", "開始日は終了日以前を指定してください")
    ∷ ("INVALID_AMOUNT", "金額は正の整数で入力してください")
    ∷ ("INVALID_FILE_TYPE", "JPEG, PNG, PDF のみアップロード可能です")
    ∷ ("MISSING_REJECTION_REASON", "却下理由を入力してください")
    ∷ ("RATE_LIMIT_EXCEEDED", "しばらく待ってから再試行してください")
    ∷ ("INTERNAL_ERROR", internal_error_message)
    ∷ []

-- `SERVER_ERROR_MESSAGES[code]`
unfoldable pub entry : String → List (String × String) → Option String
entry code [] = none
entry code ((k, v) ∷ rest) = if str_eq k code then some v else entry code rest

-- inferCodeFromStatus
unfoldable pub infer_code_from_status : ℕ → String
infer_code_from_status status =
    if status == 500 || status == 502 || status == 503 || status == 504
    then "INTERNAL_ERROR"
    else if status == 429
    then "RATE_LIMIT_EXCEEDED"
    else if status == 404
    then "RESOURCE_NOT_FOUND"
    else if status == 403
    then "FORBIDDEN"
    else if status == 409
    then "CONFLICT"
    else if status == 422
    then "VALIDATION_ERROR"
    else "INTERNAL_ERROR"

-- The text of an error in client.ts: the server's own for a validation error, else the table's.
unfoldable pub message_of : String → Option String → String
message_of code server_message =
    if str_eq code "VALIDATION_ERROR"
    then elim server_message [ none ↦ validation_error_message | some m ↦ m ]
    else elim (entry code server_error_messages) [ none ↦ internal_error_message | some m ↦ m ]
