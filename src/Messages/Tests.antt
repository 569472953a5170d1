-- ===== src/Messages/Tests.antt =====
-- The error texts at concrete codes.
use expense_saas.Prelude.{some, ◌≡◌, refl}
use expense_saas.Messages.{message_of, entry, server_error_messages}

conflict_text : message_of "CONFLICT" (some "stale") ≡ "他のユーザーがこのレポートを更新しました。ページを再読み込みしてください。"
unfolding message_of entry server_error_messages
conflict_text = refl

validation_text : message_of "VALIDATION_ERROR" (some "title: required") ≡ "title: required"
unfolding message_of
validation_text = refl
