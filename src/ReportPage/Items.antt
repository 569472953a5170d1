-- ===== src/ReportPage/Items.antt =====
-- ReportDetailPage.tsx: the operations on the items and on the slide panel.
use expense_saas.Prelude.{
  suc, String, Option, none, some, Bool, true, false, List, [], ◌∷◌, if◌then◌else◌,
}
use expense_saas.Types.{success, error}
use expense_saas.ReportPage.{
  PanelState, closed, add, edit, view, Page, Failure, Request, delete_item, update_item, toast_of,
  message_of,
}

-- handleAddItem
unfoldable pub handle_add_item : Page → Page
handle_add_item p = record p {
  selected_item = none;
  item_api_error = none;
  last_mode = add;
  panel_state = add;
}

-- handleItemClick and handleEditItem, in the two commits that flushSync makes of them; the item is
-- looked up in the report.
unfoldable pub first_commit : Option String → Page → Page
first_commit item p = record p {
  selected_item = item;
  item_api_error = none;
  form_key = suc p.form_key;
  panel_state = closed;
}

unfoldable pub handle_item_click : Option String → Page → Page
unfolding first_commit
handle_item_click item p = record (first_commit item p) { last_mode = view; panel_state = view }

unfoldable pub handle_edit_item : Option String → Page → Page
unfolding first_commit
handle_edit_item item p = record (first_commit item p) { last_mode = edit; panel_state = edit }

-- handleDeleteItem, handleDeleteItemConfirm and handleDeleteItemCancel
unfoldable pub handle_delete_item : String → Page → Page
handle_delete_item id p = record p { deleting_item_id = some id }

unfoldable pub handle_delete_item_confirm : Page → Page × List Request
handle_delete_item_confirm p = elim p.deleting_item_id [
  | none ↦ (p, [])
  | some id ↦ (
    record p { deleting_item_id = none; pending = record p.pending { delete_item = true } },
    delete_item id ∷ [],
  )
]

unfoldable pub delete_item_ends : Option Failure → Page → Page
delete_item_ends e p = record p {
  pending = record p.pending { delete_item = false };
  toast = elim e [
    | none ↦ toast_of success "明細を削除しました"
    | some f ↦ toast_of error (message_of "明細の削除に失敗しました" f)
  ];
}

unfoldable pub handle_delete_item_cancel : Page → Page
handle_delete_item_cancel p = record p { deleting_item_id = none }

abbrev is_edit : PanelState → Bool
is_edit edit = true
is_edit _ = false

-- handleItemSubmit in the mode 'edit'. A new item is saved by the panel itself.
unfoldable pub handle_item_submit : Page → Page × List Request
handle_item_submit p = elim p.selected_item [
  | none ↦ (record p { item_api_error = none }, [])
  | some id ↦
      if is_edit p.panel_state
      then (
        record p { item_api_error = none; pending = record p.pending { update_item = true } },
        update_item id ∷ [],
      )
      else (record p { item_api_error = none }, [])
]

unfoldable pub update_item_ends : Option Failure → Page → Page
update_item_ends none p = record p {
  panel_state = closed;
  pending = record p.pending { update_item = false };
  toast = toast_of success "明細を更新しました";
}
update_item_ends (some f) p = record p {
  item_api_error = some (message_of "明細の更新に失敗しました" f);
  pending = record p.pending { update_item = false };
}

-- onClose and onSaveSuccess of the panel.
unfoldable pub close_panel : Page → Page
close_panel p = record p { panel_state = closed }

-- onSaveAndContinue
unfoldable pub save_and_continue : Page → Page
save_and_continue p = record p {
  selected_item = none;
  form_key = suc p.form_key;
  last_mode = add;
  panel_state = add;
}

-- onTransitionExited
unfoldable pub transition_exited : Page → Page
transition_exited p = record p { selected_item = none; item_api_error = none }

abbrev pub is_open : PanelState → Bool
is_open closed = false
is_open _ = true

-- The `mode` property of the panel.
abbrev pub mode_prop : Page → PanelState
mode_prop p = elim p.panel_state [ closed ↦ p.last_mode | m ↦ m ]
