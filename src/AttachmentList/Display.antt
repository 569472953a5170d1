-- ===== src/AttachmentList/Display.antt =====
-- frontend/src/pages/reports/AttachmentList.tsx: the rows of the attachments of an item.
use expense_saas.Prelude.{ℕ, String, Option, Bool, List, [], ◌∷◌, map}
use expense_saas.Texts.{Chars}
use expense_saas.AttachmentList.{is_disabled, format_file_size}

-- Attachment of frontend/src/api/types.ts
pub record Attachment : Type 0 where
  pub id : String
  pub item_id : String
  pub file_name : String
  pub file_size : ℕ
  pub mime_type : String
  pub created_at : String

-- AttachmentItemRow; its name opens the preview, and its buttons stand for a download and a deletion.
pub record RowView : Type 0 where
  pub key : String
  pub name : String
  pub size : Chars
  pub is_disabled : Bool
  pub has_delete : Bool

unfoldable pub attachment_item_row :
    (can_delete : Bool) (deleting_id : Option String) → Attachment → RowView
unfolding is_disabled format_file_size
attachment_item_row can_delete deleting_id a = record {
  key = a.id;
  name = a.file_name;
  size = format_file_size a.file_size;
  is_disabled = is_disabled deleting_id a.id;
  has_delete = can_delete;
}

pub data ListView : Type 0 where
  empty : (message : String) → ListView
  rows : List RowView → ListView

unfoldable pub attachment_list :
    (can_delete : Bool) (deleting_id : Option String) → List Attachment → ListView
unfolding attachment_item_row
attachment_list can_delete deleting_id [] = empty "添付ファイルはありません"
attachment_list can_delete deleting_id (a ∷ rest) =
    rows (map (attachment_item_row can_delete deleting_id) (a ∷ rest))
