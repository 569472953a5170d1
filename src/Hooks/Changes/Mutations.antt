-- ===== src/Hooks/Changes/Mutations.antt =====
-- frontend/src/hooks: the request of each mutation, and the keys that it invalidates once the server
-- has answered.
use expense_saas.Prelude.{String, Option, none, some, List, [], ◌∷◌, ◌++◌, truthy, if◌then◌else◌}
use expense_saas.Texts.{Chars}
use expense_saas.ItemForm.{Number}
use expense_saas.Hooks.{◌+++◌, attachments_path}

-- A key of texts, as `invalidateQueries` takes it.
abbrev pub KeyFilter : Type 0
KeyFilter = List String

pub data Method : Type 0 where
  post put delete : Method

-- A property of a body of JSON.
pub data Value : Type 0 where
  id : String → Value
  text : Chars → Value
  number : Number → Value

pub data Body : Type 0 where
  empty : Body
  json : List (String × Value) → Body
  form_data : (file : String) → Body

pub record Mutation : Type 0 where
  pub method : Method
  pub path : String
  pub body : Body
  pub invalidates : List KeyFilter

pub record CreateReportInput : Type 0 where
  pub title : Chars
  pub period_start : Chars
  pub period_end : Chars
  pub reference_report_id : Option String

pub record UpdateReportInput : Type 0 where
  pub id : String
  pub title : Chars
  pub period_start : Chars
  pub period_end : Chars
  pub updated_at : String

-- SubmitReportInput and MarkAsPaidInput
pub record SubmitReportInput : Type 0 where
  pub id : String
  pub updated_at : String

pub record ApproveReportInput : Type 0 where
  pub id : String
  pub comment : Option Chars
  pub updated_at : String

pub record RejectReportInput : Type 0 where
  pub id : String
  pub reason : Chars
  pub updated_at : String

pub record ItemValues : Type 0 where
  pub expense_date : Chars
  pub amount : Number
  pub category_id : String
  pub description : Chars

pub record CreateItemInput : Type 0 where
  pub report_id : String
  pub values : ItemValues

pub record UpdateItemInput : Type 0 where
  pub report_id : String
  pub item_id : String
  pub values : ItemValues
  pub updated_at : String

pub record DeleteItemInput : Type 0 where
  pub report_id : String
  pub item_id : String

pub record UploadAttachmentParams : Type 0 where
  pub report_id : String
  pub item_id : String
  pub file : String

pub record DeleteAttachmentParams : Type 0 where
  pub report_id : String
  pub item_id : String
  pub att_id : String

abbrev detail : String → KeyFilter
detail report_id = "reports" ∷ "detail" ∷ report_id ∷ []

abbrev mine : KeyFilter
mine = "reports" ∷ "mine" ∷ []

abbrev pending : KeyFilter
pending = "workflow" ∷ "pending" ∷ []

abbrev payable : KeyFilter
payable = "workflow" ∷ "payable" ∷ []

abbrev dashboards : KeyFilter
dashboards = "dashboard" ∷ []

abbrev files : (report_id item_id : String) → KeyFilter
files report_id item_id = "reports" ∷ report_id ∷ "items" ∷ item_id ∷ "attachments" ∷ []

abbrev reference : Option String → List (String × Value)
reference none = []
reference (some r) = if truthy r then ("reference_report_id", Value.id r) ∷ [] else []

unfoldable pub use_create_report : CreateReportInput → Mutation
use_create_report input = record {
  method = post;
  path = "/api/reports";
  body = json (
      ("title", text input.title)
      ∷ ("period_start", text input.period_start)
      ∷ ("period_end", text input.period_end)
      ∷ reference input.reference_report_id);
  invalidates = mine ∷ dashboards ∷ [];
}

unfoldable pub use_update_report : UpdateReportInput → Mutation
use_update_report input = record {
  method = put;
  path = "/api/reports/" +++ input.id;
  body = json (
      ("title", text input.title)
      ∷ ("period_start", text input.period_start)
      ∷ ("period_end", text input.period_end)
      ∷ ("updated_at", Value.id input.updated_at)
      ∷ []);
  invalidates = detail input.id ∷ mine ∷ [];
}

unfoldable pub use_submit_report : SubmitReportInput → Mutation
use_submit_report input = record {
  method = post;
  path = "/api/reports/" +++ input.id +++ "/submit";
  body = json (("updated_at", Value.id input.updated_at) ∷ []);
  invalidates = detail input.id ∷ mine ∷ dashboards ∷ pending ∷ [];
}

unfoldable pub use_delete_report : (report_id : String) → Mutation
use_delete_report report_id = record {
  method = delete;
  path = "/api/reports/" +++ report_id;
  body = empty;
  invalidates = mine ∷ dashboards ∷ [];
}

abbrev comment_of : Option Chars → List (String × Value)
comment_of none = []
comment_of (some c) = ("comment", text c) ∷ []

unfoldable pub use_approve_report : ApproveReportInput → Mutation
use_approve_report input = record {
  method = post;
  path = "/api/workflow/" +++ input.id +++ "/approve";
  body = json (("updated_at", Value.id input.updated_at) ∷ comment_of input.comment);
  invalidates = detail input.id ∷ pending ∷ payable ∷ dashboards ∷ [];
}

unfoldable pub use_reject_report : RejectReportInput → Mutation
use_reject_report input = record {
  method = post;
  path = "/api/workflow/" +++ input.id +++ "/reject";
  body = json (("reason", text input.reason) ∷ ("updated_at", Value.id input.updated_at) ∷ []);
  invalidates = detail input.id ∷ pending ∷ dashboards ∷ [];
}

unfoldable pub use_mark_as_paid : SubmitReportInput → Mutation
use_mark_as_paid input = record {
  method = post;
  path = "/api/workflow/" +++ input.id +++ "/pay";
  body = json (("updated_at", Value.id input.updated_at) ∷ []);
  invalidates = detail input.id ∷ payable ∷ dashboards ∷ ("reports" ∷ "all" ∷ []) ∷ [];
}

abbrev item_fields : ItemValues → List (String × Value)
item_fields v =
    ("expense_date", text v.expense_date)
    ∷ ("amount", number v.amount)
    ∷ ("category_id", Value.id v.category_id)
    ∷ ("description", text v.description)
    ∷ []

abbrev items_path : String → String
items_path report_id = "/api/reports/" +++ report_id +++ "/items"

unfoldable pub use_create_item : CreateItemInput → Mutation
use_create_item input = record {
  method = post;
  path = items_path input.report_id;
  body = json (item_fields input.values);
  invalidates = detail input.report_id ∷ [];
}

unfoldable pub use_update_item : UpdateItemInput → Mutation
use_update_item input = record {
  method = put;
  path = items_path input.report_id +++ "/" +++ input.item_id;
  body = json (item_fields input.values ++ ("updated_at", Value.id input.updated_at) ∷ []);
  invalidates = detail input.report_id ∷ [];
}

unfoldable pub use_delete_item : DeleteItemInput → Mutation
use_delete_item input = record {
  method = delete;
  path = items_path input.report_id +++ "/" +++ input.item_id;
  body = empty;
  invalidates = detail input.report_id ∷ [];
}

unfoldable pub use_upload_attachment : UploadAttachmentParams → Mutation
use_upload_attachment p = record {
  method = post;
  path = attachments_path p.report_id p.item_id;
  body = form_data p.file;
  invalidates = detail p.report_id ∷ files p.report_id p.item_id ∷ [];
}

unfoldable pub use_delete_attachment : DeleteAttachmentParams → Mutation
use_delete_attachment p = record {
  method = delete;
  path = attachments_path p.report_id p.item_id +++ "/" +++ p.att_id;
  body = empty;
  invalidates = detail p.report_id ∷ files p.report_id p.item_id ∷ [];
}
