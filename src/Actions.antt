-- ===== src/Actions.antt =====
-- frontend/src/pages/reports: the buttons of ReportActionBar.tsx, OwnerActions.tsx,
-- WorkflowActions.tsx and ItemListSection.tsx. A component that renders null has no buttons.
pub mod Served
mod Tests
use expense_saas.Prelude.{
  ℕ, String, Option, none, some, Bool, true, false, List, [], ◌∷◌, ◌==◌, ◌||◌, ◌&&◌, not, str_eq,
  if◌then◌else◌, ◌≡◌, ◌⊎◌,
}
use expense_saas.Types.{
  Role, approver, accounting, ReportStatus, draft, submitted, approved, rejected, paid,
}

pub data Action : Type 0 where
  edit submit delete resubmit approve reject pay : Action

-- The operation that is under way, if any.
pub data Pending : Type 0 where
  submit delete approve reject pay : Pending

pub record Button : Type 0 where
  pub action : Action
  pub disabled : Bool
  pub spinner : Bool

abbrev is_some {ℓ} : {A : Type ℓ} → Option A → Bool
is_some none = false
is_some (some _) = true

abbrev pub is_pending : Pending → Option Pending → Bool
is_pending Pending.submit (some Pending.submit) = true
is_pending Pending.delete (some Pending.delete) = true
is_pending Pending.approve (some Pending.approve) = true
is_pending Pending.reject (some Pending.reject) = true
is_pending Pending.pay (some Pending.pay) = true
is_pending _ _ = false

-- OwnerActions
unfoldable pub owner_actions : ReportStatus → (item_count : ℕ) → Option Pending → List Button
owner_actions draft item_count pending =
    let busy = is_some pending in
    record { action = Action.edit; disabled = busy; spinner = false }
    ∷ record {
      action = Action.submit;
      disabled = item_count == 0 || busy;
      spinner = is_pending Pending.submit pending;
    }
    ∷ record { action = Action.delete; disabled = busy; spinner = false }
    ∷ []
owner_actions rejected item_count pending =
    record { action = Action.resubmit; disabled = false; spinner = false } ∷ []
owner_actions _ item_count pending = []

abbrev plain : Action → Option Pending → Button
plain a pending = record { action = a; disabled = is_some pending; spinner = false }

abbrev pub is_role_approver : Option Role → Bool
is_role_approver (some approver) = true
is_role_approver _ = false

abbrev pub is_role_accounting : Option Role → Bool
is_role_accounting (some accounting) = true
is_role_accounting _ = false

abbrev is_own_editable : ReportStatus → Bool
is_own_editable draft = true
is_own_editable rejected = true
is_own_editable _ = false

abbrev is_paid : ReportStatus → Bool
is_paid paid = true
is_paid _ = false

abbrev is_submitted : ReportStatus → Bool
is_submitted submitted = true
is_submitted _ = false

abbrev is_approved : ReportStatus → Bool
is_approved approved = true
is_approved _ = false

-- ReportActionBar; the role is missing until the current user is loaded.
unfoldable pub report_action_bar :
    ReportStatus → (is_owner : Bool) → Option Role → (item_count : ℕ) → Option Pending → List Button
unfolding owner_actions
report_action_bar status is_owner role item_count pending =
    if is_paid status
    then []
    else if is_owner && is_own_editable status
    then owner_actions status item_count pending
    else if not is_owner && is_role_approver role && is_submitted status
    then plain Action.approve pending ∷ plain Action.reject pending ∷ []
    else if not is_owner && is_role_accounting role && is_approved status
    then plain Action.pay pending ∷ []
    else []

-- WorkflowActions
unfoldable pub workflow_actions :
    ReportStatus → Role → (is_owner : Bool) → Option Pending → List Button
workflow_actions status role is_owner pending =
    if is_owner
    then []
    else if is_role_approver (some role) && is_submitted status
    then record {
      action = Action.approve;
      disabled = is_some pending;
      spinner = is_pending Pending.approve pending;
    }
      ∷ record {
        action = Action.reject;
        disabled = is_some pending;
        spinner = is_pending Pending.reject pending;
      }
      ∷ []
    else if is_role_accounting (some role) && is_approved status
    then record {
      action = Action.pay;
      disabled = is_some pending;
      spinner = is_pending Pending.pay pending;
    }
      ∷ []
    else []

abbrev is_draft : ReportStatus → Bool
is_draft draft = true
is_draft _ = false

-- `canEditItems` of ItemListSection: the items may be added to, edited and deleted.
unfoldable pub can_edit_items : ReportStatus → (is_owner : Bool) → Bool
can_edit_items status is_owner = is_owner && is_draft status

-- `isOwner` of ReportDetailPage: `user?.id === report.submitter?.id`
abbrev pub owns : Option String → (submitter : String) → Bool
owns none submitter = false
owns (some user) submitter = str_eq user submitter

abbrev rank : Action → ℕ
rank Action.edit = 0
rank Action.submit = 1
rank Action.delete = 2
rank Action.resubmit = 3
rank Action.approve = 4
rank Action.reject = 5
rank Action.pay = 6

-- The button is there, and can be pressed.
unfoldable pub offers : Action → List Button → Bool
offers a [] = false
offers a (b ∷ bs) = (rank b.action == rank a && not b.disabled) || offers a bs
