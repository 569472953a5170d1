-- ===== src/ListPages/Workflow/Tests.antt =====
-- A list with one report, and a walk through the processed reports.
use expense_saas.Prelude.{none, some, false, List, [], ◌∷◌, ◌≡◌, refl, true}
use expense_saas.Types.{approver}
use expense_saas.Texts.{codes}
use expense_saas.Pagination.{Params}
use expense_saas.Navigation.{View}
use expense_saas.ListPages.Workflow.Rows.{
  PendingReport, PayableReport, ProcessedReport, own, plain, yen, pending_row, name_cell, date_cell,
}
use expense_saas.ListPages.Workflow.{Answer}
use expense_saas.ListPages.Workflow.Handlers.{Event, change_page, change_per_page}

abbrev trip : PendingReport
trip = record {
  id = "r1";
  title = "出張";
  total_amount = 1200;
  submitted_at = none;
  submitter = some "山田";
  is_own_report = true;
}

trip_shown : (pending_row trip).cells ≡ own "山田" ∷ plain "出張" ∷ yen 1200 ∷ plain "-" ∷ []
unfolding pending_row name_cell date_cell
trip_shown = refl

abbrev third : Params
third = ("page", codes "3") ∷ ("per_page", codes "50") ∷ []

abbrev seen_by : View
seen_by = record { role = some approver; error = none }

abbrev pending : Answer PendingReport
pending = record { is_loading = false; reports = trip ∷ []; pagination = none }

abbrev payable : Answer PayableReport
payable = record { is_loading = true; reports = []; pagination = none }

abbrev processed : Answer ProcessedReport
processed = record { is_loading = false; reports = []; pagination = none }

abbrev walk : List Event
walk = change_per_page 10 ∷ change_page 2 ∷ []
