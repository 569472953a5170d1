-- ===== src/Upload/Deletion.antt =====
-- frontend/src/hooks/useDeleteAttachment.ts: the controller that aborts a deletion under way, which
-- is handled by the same code as that of an upload.
use expense_saas.Prelude.{ℕ}
use expense_saas.Upload.{Upload, mutate, cancel, settle, unmount}

abbrev pub Deletion : Type 0
Deletion = Upload

unfoldable pub mutate_deletion : Deletion → Deletion
unfolding mutate
mutate_deletion s = mutate s

unfoldable pub cancel_deletion : Deletion → Deletion
unfolding cancel
cancel_deletion s = cancel s

unfoldable pub settle_deletion : ℕ → Deletion → Deletion
unfolding settle
settle_deletion k s = settle k s

unfoldable pub unmount_deletion : Deletion → Deletion
unfolding unmount
unmount_deletion s = unmount s
