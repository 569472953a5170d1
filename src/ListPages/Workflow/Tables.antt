-- ===== src/ListPages/Workflow/Tables.antt =====
-- What the tables of the pages of the workflow show, for whom.
use expense_saas.Pagination.{Params}
use expense_saas.Prelude.{
  String, Option, none, some, Bool, true, false, List, [], ◌∷◌, ◌==◌, ◌&&◌, ◌≡◌, refl, arith, map,
  length, ap, if◌then◌else◌, not,
}
use expense_saas.Navigation.{View, approval_list_page, payment_list_page, processed_reports_page}
use expense_saas.ListPages.Names.{NamePage}
use expense_saas.ListPages.Workflow.Rows.{
  PendingReport, PayableReport, ProcessedReport, Row, pending_row, payable_row, processed_row,
  pending_columns, payable_columns, processed_columns,
}
use expense_saas.ListPages.Workflow.{
  ListView, Body, skeleton, table, Answer, approval_list_view, payment_list_view,
  processed_reports_view,
}

abbrev pub is_shown : Option ListView → Bool
is_shown none = false
is_shown (some v) = true

unfoldable pub fits : (columns : List String) → List Row → Bool
fits columns [] = true
fits columns (r ∷ rs) = length r.cells == length columns && fits columns rs

-- Each row has a cell for each column.
abbrev body_fits : Body → Bool
body_fits skeleton = true
body_fits (table c columns rows e f) = fits columns rows

abbrev pub view_fits : Option ListView → Bool
view_fits none = true
view_fits (some v) = body_fits v.body

abbrev body_ids : Body → List String
body_ids skeleton = []
body_ids (table c columns rows e f) = map (λ r. r.id) rows

-- The reports that a click on a row leads to, from above.
abbrev pub row_ids : Option ListView → List String
row_ids none = []
row_ids (some v) = body_ids v.body

fits-pending : (l : List PendingReport) → fits pending_columns (map pending_row l) ≡ true
unfolding fits pending_row
fits-pending [] = refl
fits-pending (r ∷ l) = fits-pending l

fits-payable : (l : List PayableReport) → fits payable_columns (map payable_row l) ≡ true
unfolding fits payable_row
fits-payable [] = refl
fits-payable (r ∷ l) = fits-payable l

fits-processed : (l : List ProcessedReport) → fits processed_columns (map processed_row l) ≡ true
unfolding fits processed_row
fits-processed [] = refl
fits-processed (r ∷ l) = fits-processed l

ids-pending : (l : List PendingReport) → map (λ r. r.id) (map pending_row l) ≡ map (λ r. r.id) l
unfolding pending_row
ids-pending [] = refl
ids-pending (r ∷ l) = ap (λ s. r.id ∷ s) (ids-pending l)

ids-payable : (l : List PayableReport) → map (λ r. r.id) (map payable_row l) ≡ map (λ r. r.id) l
unfolding payable_row
ids-payable [] = refl
ids-payable (r ∷ l) = ap (λ s. r.id ∷ s) (ids-payable l)

ids-processed :
    (l : List ProcessedReport) → map (λ r. r.id) (map processed_row l) ≡ map (λ r. r.id) l
unfolding processed_row
ids-processed [] = refl
ids-processed (r ∷ l) = ap (λ s. r.id ∷ s) (ids-processed l)

-- What a view of a list must be: on the screen exactly for those whom the guard lets see it; each row
-- with a cell for each column; and, when the answer is there, a row for each report, in its order.
abbrev pub IsFaithful :
    (may_see : Bool) (is_loading : Bool) (ids : List String) → Option ListView → Type 0
IsFaithful may_see is_loading ids v =
    (is_shown v ≡ may_see)
    × (view_fits v ≡ true)
    × (row_ids v ≡ (if may_see && not is_loading then ids else []))

approval_list_view-IsFaithful :
    (v : View) (p : NamePage) (a : Answer PendingReport)
    → IsFaithful
        (approval_list_page v).has_content
        a.is_loading
        (map (λ r. r.id) a.reports)
        (approval_list_view v.role p a)
unfolding approval_list_view approval_list_page
approval_list_view-IsFaithful v p a = ground (arith, fits-pending a.reports, ids-pending a.reports)

payment_list_view-IsFaithful :
    (v : View) (p : NamePage) (a : Answer PayableReport)
    → IsFaithful
        (payment_list_page v).has_content
        a.is_loading
        (map (λ r. r.id) a.reports)
        (payment_list_view v.role p a)
unfolding payment_list_view payment_list_page
payment_list_view-IsFaithful v p a = ground (arith, fits-payable a.reports, ids-payable a.reports)

processed_reports_view-IsFaithful :
    (v : View) (m : Params) (a : Answer ProcessedReport)
    → IsFaithful
        (processed_reports_page v).has_content
        a.is_loading
        (map (λ r. r.id) a.reports)
        (processed_reports_view v.role m a)
unfolding processed_reports_view processed_reports_page
processed_reports_view-IsFaithful v m a =
    ground (arith, fits-processed a.reports, ids-processed a.reports)

-- The three pages of the workflow are on the screen exactly for those whom their guards let see them;
-- each row of their tables has a cell for each column; and, when the answer is there, the rows lead
-- to the reports of the answer, in its order, and while it is loading there are none.
views-IsFaithful :
    (v : View) (p : NamePage) (m : Params) (a : Answer PendingReport) (b : Answer PayableReport)
    (c : Answer ProcessedReport)
    → IsFaithful
        (approval_list_page v).has_content
        a.is_loading
        (map (λ r. r.id) a.reports)
        (approval_list_view v.role p a)
      × IsFaithful
          (payment_list_page v).has_content
          b.is_loading
          (map (λ r. r.id) b.reports)
          (payment_list_view v.role p b)
      × IsFaithful
          (processed_reports_page v).has_content
          c.is_loading
          (map (λ r. r.id) c.reports)
          (processed_reports_view v.role m c)
views-IsFaithful v p m a b c = (
  approval_list_view-IsFaithful v p a,
  payment_list_view-IsFaithful v p b,
  processed_reports_view-IsFaithful v m c,
)
