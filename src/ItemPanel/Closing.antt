-- ===== src/ItemPanel/Closing.antt =====
-- ItemSlidePanel.tsx: when the panel is closed, and what closing leaves behind.
use expense_saas.Prelude.{Bool, true, false, List, [], ◌∷◌, ◌||◌, ◌&&◌, not, ◌≡◌, arith}
use expense_saas.ItemPanel.{
  Panel, Call, on_close, cancel_upload, cancel_delete, abort_sequential, is_dirty, Event,
  close_attempt, discard, closed, step,
}

abbrev is_on_close : Call → Bool
is_on_close on_close = true
is_on_close _ = false

abbrev is_cancel_upload : Call → Bool
is_cancel_upload cancel_upload = true
is_cancel_upload _ = false

abbrev is_cancel_delete : Call → Bool
is_cancel_delete cancel_delete = true
is_cancel_delete _ = false

abbrev pub is_abort : Call → Bool
is_abort abort_sequential = true
is_abort _ = false

abbrev pub has : (Call → Bool) → List Call → Bool
has test [] = false
has test (c ∷ cs) = test c || has test cs

-- The step closes the panel.
abbrev pub closes : Event → Panel → Bool
closes e p = has is_on_close (step e p).1

-- The step cancels the upload and the deletion, each of which may be under way.
abbrev pub cancels : Event → Panel → Bool
cancels e p = has is_cancel_upload (step e p).1 && has is_cancel_delete (step e p).1

-- An event by which the user agrees to lose the input.
abbrev pub is_consent : Event → Bool
is_consent discard = true
is_consent _ = false

-- A step closes a panel with unsaved input only if the user answered the question that was on the
-- screen, or if the item is already created and its files are on their way.
pub step-closes_dirty :
    (e : Event) (p : Panel)
    → closes e p ≡ true
    → is_dirty p ≡ true
    → ((is_consent e && p.is_discard_dialog_open) || p.is_sequential_uploading) ≡ true
unfolding step
step-closes_dirty close_attempt p h d = ground arith
step-closes_dirty discard p h d = ground arith
step-closes_dirty _ p h d = ground arith

-- A step that closes the panel cancels the upload and the deletion that may be under way, or else
-- it is the loop over the files that is under way, whose controller, if there is one, is aborted;
-- and after the panel is closed, no input is left, so the next opening starts clean.
pub step-closed :
    (e : Event) (p : Panel)
    → closes e p ≡ true
    → ((cancels e p || p.is_sequential_uploading) ≡ true)
      × (p.has_controller && p.is_sequential_uploading && not (has is_abort (step e p).1) ≡ false)
      × (is_dirty (step closed (step e p).0).0 ≡ false)
unfolding step
step-closed close_attempt p h = ground arith
step-closed discard p h = ground arith
step-closed _ p h = ground arith
