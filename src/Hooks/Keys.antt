-- ===== src/Hooks/Keys.antt =====
-- The keys of the queries: each part of a request stands in its key.
use expense_saas.Prelude.{
  String, none, some, List, [], ◌∷◌, str_eq, if◌then◌else◌, ◌≡◌, ◌∙◌, refl, sym, ap,
}
use expense_saas.Hooks.{
  Query, ReportListParams, my_reports, report, pending_reports, payable_reports, processed_reports,
  all_reports, dashboard, current_user, tenant, tenant_members, categories, attachments,
  download_url, preview_url, Value, number, Part, undefined, object, QueryKey, query_key, Url, url,
  my_reports_url, report_list_url, processed_reports_url, all_reports_url,
}

-- The request of a list, from the second part of its key and its parameters.
url_of_list : String → List (String × Value) → Url
unfolding url my_reports_url report_list_url processed_reports_url all_reports_url
url_of_list name ((_, number page) ∷ (_, number per_page) ∷ []) =
    url (processed_reports record { page = page; per_page = per_page })
url_of_list name ((_, number page) ∷ (_, number per_page) ∷ (_, Value.text applicant) ∷ []) =
    let p : ReportListParams = record {
      page = page;
      per_page = per_page;
      applicant_name = applicant;
    } in
    if str_eq name "pending" then url (pending_reports p) else url (payable_reports p)
url_of_list name
      ((_, number page)
        ∷ (_, number per_page)
        ∷ (_, Value.text s)
        ∷ (_, Value.text f)
        ∷ (_, Value.text t)
        ∷ []) =
    url (my_reports record { page = page; per_page = per_page; status = s; from = f; to = t })
url_of_list name
      ((_, number page)
        ∷ (_, number per_page)
        ∷ (_, Value.text s)
        ∷ (_, Value.text f)
        ∷ (_, Value.text t)
        ∷ (_, Value.text who)
        ∷ []) =
    url (
      all_reports record {
        page = page;
        per_page = per_page;
        status = s;
        from = f;
        to = t;
        submitter_id = who;
      })
url_of_list name _ = url dashboard

-- The request of a key.
url_of_key : QueryKey → Url
unfolding url_of_list
url_of_key (Part.text a ∷ []) =
    if str_eq a "dashboard"
    then url dashboard
    else if str_eq a "tenant"
    then url tenant
    else url categories
url_of_key (Part.text a ∷ Part.text b ∷ []) =
    if str_eq a "auth" then url current_user else url tenant_members
url_of_key (Part.text a ∷ Part.text b ∷ undefined ∷ []) = url (report none)
url_of_key (Part.text a ∷ Part.text b ∷ Part.text id ∷ []) = url (report (some id))
url_of_key (Part.text a ∷ Part.text b ∷ object o ∷ []) = url_of_list b o
url_of_key (Part.text a ∷ Part.text r ∷ Part.text b ∷ Part.text i ∷ Part.text c ∷ []) =
    url (attachments r i)
url_of_key
      (Part.text a
        ∷ Part.text r
        ∷ Part.text b
        ∷ Part.text i
        ∷ Part.text c
        ∷ Part.text x
        ∷ Part.text kind
        ∷ []) =
    if str_eq kind "download" then url (download_url r i x) else url (preview_url r i x)
url_of_key _ = url dashboard

url_of_key-query_key : (q : Query) → url_of_key (query_key q) ≡ url q
unfolding url_of_key url_of_list query_key url all_reports_url
url_of_key-query_key (my_reports p) = refl
url_of_key-query_key (report none) = refl
url_of_key-query_key (report (some id)) = refl
url_of_key-query_key (pending_reports p) = refl
url_of_key-query_key (payable_reports p) = refl
url_of_key-query_key (processed_reports p) = refl
url_of_key-query_key (all_reports p) = refl
url_of_key-query_key dashboard = refl
url_of_key-query_key current_user = refl
url_of_key-query_key tenant = refl
url_of_key-query_key tenant_members = refl
url_of_key-query_key categories = refl
url_of_key-query_key (attachments r i) = refl
url_of_key-query_key (download_url r i a) = refl
url_of_key-query_key (preview_url r i a) = refl

-- Two uses of the hooks that share a key send the same request, so that no answer of the cache is
-- taken for that of another request.
pub query_key-url : (q r : Query) → query_key q ≡ query_key r → url q ≡ url r
query_key-url q r h = sym (url_of_key-query_key q) ∙ ap url_of_key h ∙ url_of_key-query_key r
