-- ===== src/ReportPage/Invariant/Bar.antt =====
-- ReportDetailPage.tsx: the buttons of ReportActionBar keep the invariant.
use expense_saas.Prelude.{Option, none, some, Bool, true, false, not, ◌≡◌, ◌≢◌, refl, arith}
use expense_saas.Actions.{Action, resubmit, Pending, offers, report_action_bar}
use expense_saas.Actions.Served.{offers-bar_busy}
use expense_saas.ReportPage.{WorkflowAction, Page, View, as_pending, handle_action}
use expense_saas.ReportPage.Reachable.{is_covered}
use expense_saas.ReportPage.Invariant.{IsSound}

-- The buttons of the page, while the bar is told of an operation.
abbrev pub bar : View → Option WorkflowAction → Action → Bool
bar v pending a =
    offers a (report_action_bar v.status v.is_owner v.role v.item_count (as_pending pending))

bar_busy : (v : View) (a : Action) (x : WorkflowAction) → a ≢ resubmit → bar v (some x) a ≡ false
bar_busy v a WorkflowAction.approve r =
    offers-bar_busy v.status v.is_owner v.role v.item_count Pending.approve a r
bar_busy v a WorkflowAction.reject r =
    offers-bar_busy v.status v.is_owner v.role v.item_count Pending.reject a r
bar_busy v a WorkflowAction.pay r =
    offers-bar_busy v.status v.is_owner v.role v.item_count Pending.pay a r

pub bar_open :
    (v : View) (a : Action) (o : Option WorkflowAction) → bar v o a ≡ true → a ≢ resubmit → o ≡ none
bar_open v a none h r = refl
bar_open v a (some x) h r = absurd (ground (arith, h, bar_busy v a x r))

pub handle_action-IsSound :
    (a : Action) (p : Page)
    → IsSound p
    → not (is_covered p) ≡ true
    → (a ≢ resubmit → p.workflow_pending_action ≡ none)
    → IsSound (handle_action a p).0
unfolding handle_action
handle_action-IsSound Action.edit p h g o = h
handle_action-IsSound Action.resubmit p h g o = h
handle_action-IsSound Action.submit p h g o = let quiet = o (λ e. cc) in ground arith
handle_action-IsSound Action.delete p h g o = let quiet = o (λ e. cc) in ground arith
handle_action-IsSound Action.approve p h g o = let quiet = o (λ e. cc) in ground arith
handle_action-IsSound Action.reject p h g o = let quiet = o (λ e. cc) in ground arith
handle_action-IsSound Action.pay p h g o = let quiet = o (λ e. cc) in ground arith
