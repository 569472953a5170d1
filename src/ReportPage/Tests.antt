-- ===== src/ReportPage/Tests.antt =====
-- The page with a report that an approver rejects.
use expense_saas.Prelude.{some, true, false, List, [], ◌∷◌, ◌||◌, ◌≡◌, refl, all}
use expense_saas.Types.{approver, submitted}
use expense_saas.Actions.{Action, offers, report_action_bar}
use expense_saas.ConfirmDialog.{is_blank, is_trimmed}
use expense_saas.ReportPage.{
  Page, Failure, api_error, View, handle_action, handle_workflow_dialog_confirm,
}
use expense_saas.ReportPage.Items.{handle_edit_item, is_open}
use expense_saas.ReportPage.Reachable.{
  Event, press, confirm_workflow, submit_answer, press_edit_item, step, run, new_page,
}
use expense_saas.ReportPage.Requests.{is_new_in, step-requests}
use expense_saas.ReportPage.Answers.{is_conflict_answer, step-conflict_detected}

abbrev approving : View
approving = record { status = submitted; is_owner = false; role = some approver; item_count = 2 }

abbrev rejecting : List Event
rejecting = press approving Action.reject ∷ confirm_workflow (b'n' ∷ b'o' ∷ []) ∷ []

abbrev editing : List Event
editing = press_edit_item (some "item-1") ∷ []

abbrev conflict : Failure
conflict = api_error 409 "stale"

abbrev submitting : Page
submitting = record new_page { pending = record new_page.pending { submit = true } }

reject_sent : (run rejecting new_page).0.pending.reject ≡ true
unfolding run step new_page handle_action handle_workflow_dialog_confirm offers report_action_bar
    is_blank is_trimmed
reject_sent = refl

panel_opened : is_open (run editing new_page).0.panel_state ≡ true
unfolding run step new_page handle_edit_item
panel_opened = refl

step-requests_example :
    all
      (is_new_in (run rejecting new_page).0.pending)
      (step (confirm_workflow (b'n' ∷ [])) (run rejecting new_page).0).1
    ≡ true
step-requests_example = step-requests (confirm_workflow (b'n' ∷ [])) (run rejecting new_page).0

step-conflict_detected_example :
    (step (submit_answer (some conflict)) submitting).0.conflict_detected
    ≡ submitting.conflict_detected || is_conflict_answer (submit_answer (some conflict)) submitting
step-conflict_detected_example = step-conflict_detected (submit_answer (some conflict)) submitting
