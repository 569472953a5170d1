-- ===== src/ReportPage/Invariant/Panel.antt =====
-- ReportDetailPage.tsx: the operations on the items keep the invariant.
use expense_saas.Prelude.{String, Option, true, not, ◌≡◌, arith}
use expense_saas.ReportPage.{Page, Failure, Toast, take_state_toast, close_toast}
use expense_saas.ReportPage.Items.{
  handle_add_item, handle_item_click, handle_edit_item, handle_delete_item,
  handle_delete_item_confirm, delete_item_ends, handle_delete_item_cancel, handle_item_submit,
  update_item_ends, close_panel, save_and_continue, transition_exited, is_open,
}
use expense_saas.ReportPage.Reachable.{is_covered}
use expense_saas.ReportPage.Invariant.{IsSound}

pub handle_add_item-IsSound :
    (p : Page) → IsSound p → (not (is_covered p)) ≡ true → IsSound (handle_add_item p)
unfolding handle_add_item
handle_add_item-IsSound p h g = ground arith

pub handle_item_click-IsSound :
    (item : Option String) (p : Page)
    → IsSound p
    → (not (is_covered p)) ≡ true
    → IsSound (handle_item_click item p)
unfolding handle_item_click
handle_item_click-IsSound item p h g = ground arith

pub handle_edit_item-IsSound :
    (item : Option String) (p : Page)
    → IsSound p
    → (not (is_covered p)) ≡ true
    → IsSound (handle_edit_item item p)
unfolding handle_edit_item
handle_edit_item-IsSound item p h g = ground arith

pub handle_delete_item-IsSound :
    (id : String) (p : Page)
    → IsSound p
    → (not (is_covered p)) ≡ true
    → IsSound (handle_delete_item id p)
unfolding handle_delete_item
handle_delete_item-IsSound id p h g = ground arith

pub handle_delete_item_confirm-IsSound :
    (p : Page) → IsSound p → IsSound (handle_delete_item_confirm p).0
unfolding handle_delete_item_confirm
handle_delete_item_confirm-IsSound p h = ground arith

pub handle_delete_item_cancel-IsSound :
    (p : Page) → IsSound p → IsSound (handle_delete_item_cancel p)
unfolding handle_delete_item_cancel
handle_delete_item_cancel-IsSound p h = ground arith

pub delete_item_ends-IsSound :
    (e : Option Failure) (p : Page) → IsSound p → IsSound (delete_item_ends e p)
unfolding delete_item_ends
delete_item_ends-IsSound e p h = ground arith

pub handle_item_submit-IsSound : (p : Page) → IsSound p → IsSound (handle_item_submit p).0
unfolding handle_item_submit
handle_item_submit-IsSound p h = ground arith

pub update_item_ends-IsSound :
    (e : Option Failure) (p : Page) → IsSound p → IsSound (update_item_ends e p)
unfolding update_item_ends
update_item_ends-IsSound e p h = ground arith

pub close_panel-IsSound : (p : Page) → IsSound p → IsSound (close_panel p)
unfolding close_panel
close_panel-IsSound p h = ground arith

pub save_and_continue-IsSound :
    (p : Page) → IsSound p → (is_open p.panel_state) ≡ true → IsSound (save_and_continue p)
unfolding save_and_continue
save_and_continue-IsSound p h g = ground arith

pub transition_exited-IsSound : (p : Page) → IsSound p → IsSound (transition_exited p)
unfolding transition_exited
transition_exited-IsSound p h = ground arith

pub take_state_toast-IsSound : (t : Toast) (p : Page) → IsSound p → IsSound (take_state_toast t p)
unfolding take_state_toast
take_state_toast-IsSound t p h = ground arith

pub close_toast-IsSound : (p : Page) → IsSound p → IsSound (close_toast p)
unfolding close_toast
close_toast-IsSound p h = ground arith
