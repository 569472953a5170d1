-- ===== src/AttachmentArea/Display.antt =====
-- frontend/src/pages/reports/AttachmentArea.tsx, AttachmentAreaContent: the list of the attachments,
-- the uploader, the toast and the question before a deletion.
use expense_saas.Prelude.{
  String, Option, none, some, Bool, false, List, [], ◌∷◌, ◌≡◌, refl, arith, map, ap, ◌&&◌, ◌∙◌,
}
use expense_saas.Types.{Severity}
use expense_saas.AttachmentList.{is_disabled}
use expense_saas.AttachmentList.Display.{
  Attachment, RowView, ListView, empty, rows, attachment_item_row, attachment_list,
}
use expense_saas.AttachmentArea.{Area, is_some, Event, run, new_area}
use expense_saas.AttachmentArea.Flags.{run-IsTold, new_area-IsTold}

-- The question; both buttons are disabled while it is loading.
pub record Question : Type 0 where
  pub title : String
  pub message : String
  pub confirm_label : String
  pub cancel_label : String
  pub loading : Bool

pub record ContentView : Type 0 where
  pub list : ListView
  pub has_uploader : Bool
  pub toast : Option (Severity × String)
  pub question : Option Question

abbrev question_of : Option String → (loading : Bool) → Option Question
question_of none loading = none
question_of (some id) loading = some (record {
  title = "添付ファイルの削除";
  message = "この添付ファイルを削除しますか?";
  confirm_label = "削除する";
  cancel_label = "キャンセル";
  loading = loading;
})

-- `attachmentsData?.data ?? []`
abbrev attachments_of : Option (List Attachment) → List Attachment
attachments_of none = []
attachments_of (some l) = l

unfoldable pub attachment_area_content :
    (can_modify : Bool) → Option (List Attachment) → Area → ContentView
unfolding attachment_list
attachment_area_content can_modify attachments s = record {
  list = attachment_list can_modify s.deleting_id (attachments_of attachments);
  has_uploader = can_modify;
  toast = s.toast;
  question = question_of s.confirm_target_id (is_some s.delete_pending);
}

abbrev pub disabled_keys : List RowView → List (String × Bool)
disabled_keys l = map (λ r. (r.key, r.is_disabled)) l

abbrev pub rows_of : ListView → List RowView
rows_of (empty m) = []
rows_of (rows l) = l

abbrev pub is_loading : Option Question → Bool
is_loading none = false
is_loading (some q) = q.loading

disabled_keys-map :
    (can : Bool) (deleting_id : Option String) (l : List Attachment)
    → disabled_keys (map (attachment_item_row can deleting_id) l)
      ≡ map (λ (a : Attachment). (a.id, is_disabled deleting_id a.id)) l
unfolding attachment_item_row
disabled_keys-map can d [] = refl
disabled_keys-map can d (a ∷ l) =
    ap (λ r. (a.id, is_disabled d a.id) ∷ r) (disabled_keys-map can d l)

attachment_list-disabled :
    (can : Bool) (d : Option String) (l : List Attachment)
    → disabled_keys (rows_of (attachment_list can d l))
      ≡ map (λ (a : Attachment). (a.id, is_disabled d a.id)) l
unfolding attachment_list
attachment_list-disabled can d [] = refl
attachment_list-disabled can d (a ∷ l) = disabled_keys-map can d (a ∷ l)

question-loading :
    (s : Area) (can : Bool) (l : Option (List Attachment))
    → is_loading (attachment_area_content can l s).question
      ≡ is_some s.confirm_target_id && is_some s.delete_pending
unfolding attachment_area_content
question-loading s can l = ground arith

-- In every state that the attachments of an item reach: exactly the row of the attachment whose
-- deletion is under way is disabled, and a question about another one that is on the screen meanwhile
-- has its buttons disabled.
run-rows_disabled :
    (es : List Event) (can_modify : Bool) (l : List Attachment)
    → let s = (run es new_area).0 in
      let v = attachment_area_content can_modify (some l) s in
      (disabled_keys (rows_of v.list)
        ≡ map (λ (a : Attachment). (a.id, is_disabled s.delete_pending a.id)) l)
      × (is_loading v.question ≡ is_some s.confirm_target_id && is_some s.delete_pending)
unfolding attachment_area_content
run-rows_disabled es can l =
    let s = (run es new_area).0 in
    let t = run-IsTold es new_area new_area-IsTold in
    (
      attachment_list-disabled can s.deleting_id l
          ∙ ap (λ d. map (λ (a : Attachment). (a.id, is_disabled d a.id)) l) t.deleted,
      question-loading s can (some l),
    )
