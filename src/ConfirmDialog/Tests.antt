-- ===== src/ConfirmDialog/Tests.antt =====
-- The dialog of a rejection.
use expense_saas.Prelude.{none, some, true, false, [], ◌∷◌, ◌≡◌, refl, List}
use expense_saas.ConfirmDialog.{
  InputField, Shown, Props, ConfirmDialog, is_blank, is_trimmed, confirmed, commit, new_dialog,
}
use expense_saas.ConfirmDialog.Input.{step, confirm, Event, blur, change, run}
use expense_saas.ConfirmDialog.Display.{kept, commit-closing, opened}

abbrev reason : InputField
reason = record {
  label = "却下理由";
  required = true;
  max_length = 1000;
  error_message = some "却下理由を入力してください";
}

abbrev rejecting : Shown
rejecting = record {
  title = "このレポートを却下しますか？";
  message = "";
  confirm_label = "却下する";
  confirm_color = "error";
  input_field = some reason;
  api_error = none;
}

-- The page has no operation any more.
abbrev nothing : Shown
nothing = record {
  title = "";
  message = "";
  confirm_label = "支払完了にする";
  confirm_color = "primary";
  input_field = none;
  api_error = none;
}

abbrev typing : List Event
typing = blur ∷ change (b'n' ∷ b'o' ∷ []) ∷ []

abbrev typed : ConfirmDialog
typed = run (some reason) typing (opened rejecting)

abbrev closing : Props
closing = record { is_open = false; shown = nothing; loading = false }

abbrev opening : Props
opening = record { is_open = true; shown = rejecting; loading = false }

typed_confirmed : (step false (some reason) confirm typed).1 ≡ confirmed (some (b'n' ∷ b'o' ∷ []))
unfolding step run commit is_blank is_trimmed new_dialog
typed_confirmed = refl

commit-closing_example :
    ((commit true closing (step false (some reason) confirm typed).0).0
      ≡ kept rejecting nothing ∷ nothing ∷ [])
    × ((commit true closing (opened rejecting)).0 ≡ kept rejecting nothing ∷ [])
commit-closing_example =
    commit-closing rejecting nothing typing (some (b'n' ∷ b'o' ∷ [])) false refl typed_confirmed
