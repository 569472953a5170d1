-- ===== src/Hooks.antt =====
-- frontend/src/hooks: the queries of useReports.ts, useAllReports.ts, useDashboard.ts,
-- useCurrentUser.ts, useTenant.ts, useTenantMembers.ts, useCategories.ts, useAttachments.ts and
-- the two hooks for the URL of a file, with the keys under which the query client keeps their
-- answers. An answer of the server is no part of the model.
pub mod Keys
pub mod Changes
pub mod Screens
pub mod Renewal
mod Tests
use Prim.Native.String
use expense_saas.Prelude.{String, Option, none, some, List, [], ◌∷◌, ◌*◌}
use expense_saas.Texts.{Chars, Number, pos, string_of, or_else}
use expense_saas.Pagination.{Params, set}

-- The parameters of useMyReports, usePendingReports, usePayableReports, useProcessedReports and
-- useAllReports; `none` is a missing one.
pub record MyReportsParams : Type 0 where
  pub page : Option Number
  pub per_page : Option Number
  pub status : Option Chars
  pub from : Option Chars
  pub to : Option Chars

pub record ReportListParams : Type 0 where
  pub page : Option Number
  pub per_page : Option Number
  pub applicant_name : Option Chars

pub record ProcessedReportListParams : Type 0 where
  pub page : Option Number
  pub per_page : Option Number

pub record AllReportsParams : Type 0 where
  pub page : Option Number
  pub per_page : Option Number
  pub status : Option Chars
  pub from : Option Chars
  pub to : Option Chars
  pub submitter_id : Option Chars

-- A use of a hook.
pub data Query : Type 0 where
  my_reports : MyReportsParams → Query
  report : (id : Option String) → Query
  pending_reports payable_reports : ReportListParams → Query
  processed_reports : ProcessedReportListParams → Query
  all_reports : AllReportsParams → Query
  dashboard current_user tenant tenant_members categories : Query
  attachments : (report_id item_id : String) → Query
  download_url preview_url : (report_id item_id att_id : String) → Query

-- A property of an object in a key, and a part of a key. A property without a value counts as a
-- missing one.
pub data Value : Type 0 where
  number : Option Number → Value
  text : Option Chars → Value

pub data Part : Type 0 where
  text : String → Part
  undefined : Part
  object : List (String × Value) → Part

abbrev pub QueryKey : Type 0
QueryKey = List Part

abbrev pub id_part : Option String → Part
id_part none = undefined
id_part (some id) = Part.text id

abbrev page_parts : (page per_page : Option Number) → List (String × Value)
page_parts page per_page = ("page", number page) ∷ ("per_page", number per_page) ∷ []

abbrev name_parts : ReportListParams → List (String × Value)
name_parts p =
    ("page", number p.page)
    ∷ ("per_page", number p.per_page)
    ∷ ("applicant_name", Value.text p.applicant_name)
    ∷ []

abbrev attachments_key : (report_id item_id : String) → QueryKey → QueryKey
attachments_key report_id item_id rest =
    Part.text "reports"
    ∷ Part.text report_id
    ∷ Part.text "items"
    ∷ Part.text item_id
    ∷ Part.text "attachments"
    ∷ rest

-- `queryKey`
unfoldable pub query_key : Query → QueryKey
query_key (my_reports p) =
    Part.text "reports"
    ∷ Part.text "mine"
    ∷ object (
        ("page", number p.page)
        ∷ ("per_page", number p.per_page)
        ∷ ("status", Value.text p.status)
        ∷ ("from", Value.text p.from)
        ∷ ("to", Value.text p.to)
        ∷ [])
    ∷ []
query_key (report id) = Part.text "reports" ∷ Part.text "detail" ∷ id_part id ∷ []
query_key (pending_reports p) =
    Part.text "workflow" ∷ Part.text "pending" ∷ object (name_parts p) ∷ []
query_key (payable_reports p) =
    Part.text "workflow" ∷ Part.text "payable" ∷ object (name_parts p) ∷ []
query_key (processed_reports p) =
    Part.text "workflow" ∷ Part.text "processed" ∷ object (page_parts p.page p.per_page) ∷ []
query_key (all_reports p) =
    Part.text "reports"
    ∷ Part.text "all"
    ∷ object (
        ("page", number (some (or_else p.page (pos 1))))
        ∷ ("per_page", number (some (or_else p.per_page (pos 20))))
        ∷ ("status", Value.text p.status)
        ∷ ("from", Value.text p.from)
        ∷ ("to", Value.text p.to)
        ∷ ("submitter_id", Value.text p.submitter_id)
        ∷ [])
    ∷ []
query_key dashboard = Part.text "dashboard" ∷ []
query_key current_user = Part.text "auth" ∷ Part.text "me" ∷ []
query_key tenant = Part.text "tenant" ∷ []
query_key tenant_members = Part.text "tenant" ∷ Part.text "members" ∷ []
query_key categories = Part.text "categories" ∷ []
query_key (attachments r i) = attachments_key r i []
query_key (download_url r i a) = attachments_key r i (Part.text a ∷ Part.text "download" ∷ [])
query_key (preview_url r i a) = attachments_key r i (Part.text a ∷ Part.text "preview" ∷ [])

-- A path with its query: `path?query`, and the path alone where the query is empty.
pub record Url : Type 0 where
  pub path : String
  pub query : Params

-- `if (o !== undefined) searchParams.set(k, o)` and `if (o) searchParams.set(k, o)`
abbrev pub set_defined : String → Option Chars → Params → Params
set_defined k none m = m
set_defined k (some v) m = set k v m

abbrev pub set_given : String → Option Chars → Params → Params
set_given k none m = m
set_given k (some []) m = m
set_given k (some (c ∷ s)) m = set k (c ∷ s) m

abbrev pub set_number : String → Option Number → Params → Params
set_number k none m = m
set_number k (some n) m = set k (string_of n) m

abbrev plain : String → Url
plain path = record { path = path; query = [] }

unfoldable pub my_reports_url : MyReportsParams → Url
unfolding set string_of
my_reports_url p = record {
  path = "/api/reports";
  query = set_given "to" p.to (
      set_given "from" p.from (
        set_given "status" p.status
          (set_number "per_page" p.per_page (set_number "page" p.page []))));
}

unfoldable pub report_list_url : String → ReportListParams → Url
unfolding set string_of
report_list_url path p = record {
  path = path;
  query =
      set_defined "applicant_name" p.applicant_name
        (set_number "per_page" p.per_page (set_number "page" p.page []));
}

unfoldable pub processed_reports_url : ProcessedReportListParams → Url
unfolding set string_of
processed_reports_url p = record {
  path = "/api/workflow/processed";
  query = set_number "per_page" p.per_page (set_number "page" p.page []);
}

unfoldable pub all_reports_url : AllReportsParams → Url
unfolding set string_of
all_reports_url p = record {
  path = "/api/reports/all";
  query = set_given "submitter_id" p.submitter_id (
      set_given "to" p.to (
        set_given "from" p.from (
          set_given "status" p.status (
            set_number "per_page" (some (or_else p.per_page (pos 20)))
              (set_number "page" (some (or_else p.page (pos 1))) [])))));
}

abbrev id_text : Option String → String
id_text none = "undefined"
id_text (some id) = id

infixr 65 ◌+++◌
abbrev pub ◌+++◌ : String → String → String
s +++ t = String.◌++◌ s t

abbrev pub attachments_path : (report_id item_id : String) → String
attachments_path r i = "/api/reports/" +++ r +++ "/items/" +++ i +++ "/attachments"

-- The GET request of `queryFn`.
unfoldable pub url : Query → Url
unfolding my_reports_url report_list_url processed_reports_url all_reports_url
url (my_reports p) = my_reports_url p
url (report id) = plain ("/api/reports/" +++ id_text id)
url (pending_reports p) = report_list_url "/api/workflow/pending" p
url (payable_reports p) = report_list_url "/api/workflow/payable" p
url (processed_reports p) = processed_reports_url p
url (all_reports p) = all_reports_url p
url dashboard = plain "/api/dashboard"
url current_user = plain "/api/auth/me"
url tenant = plain "/api/tenant"
url tenant_members = plain "/api/tenant/members"
url categories = plain "/api/categories"
url (attachments r i) = plain (attachments_path r i)
url (download_url r i a) = plain (attachments_path r i +++ "/" +++ a +++ "/download")
url (preview_url r i a) = plain (attachments_path r i +++ "/" +++ a +++ "/preview")
