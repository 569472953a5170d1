-- ===== src/AttachmentArea/Flags.antt =====
-- AttachmentArea.tsx: what the panel is told is what is under way.
use expense_saas.Prelude.{false, List, [], ◌∷◌, ◌||◌, ◌≡◌, refl, arith}
use expense_saas.ItemPanel.{Panel, Busy, is_save_disabled}
use expense_saas.AttachmentArea.{
  Area, is_some, Event, choose, press_delete, confirm, cancel, upload_answer, delete_answer, step,
  run, new_area,
}

pub record IsTold (s : Area) : Type 0 where
  pub uploading : s.told_uploading ≡ s.upload_pending
  pub deleting : s.told_deleting ≡ is_some s.delete_pending
  pub deleted : s.deleting_id ≡ s.delete_pending

step-IsTold : (e : Event) (s : Area) → IsTold s → IsTold (step e s).0
unfolding step
step-IsTold (choose f) s h = ground arith
step-IsTold (press_delete id) s h = ground arith
step-IsTold confirm s h = ground arith
step-IsTold cancel s h = ground arith
step-IsTold (upload_answer o) s h = ground arith
step-IsTold (delete_answer o) s h = ground arith

pub run-IsTold : (es : List Event) (s : Area) → IsTold s → IsTold (run es s).0
unfolding run
run-IsTold [] s h = h
run-IsTold (e ∷ es) s h = run-IsTold es (step e s).0 (step-IsTold e s h)

pub new_area-IsTold : IsTold new_area
unfolding new_area
new_area-IsTold = record { uploading = refl; deleting = refl; deleted = refl }

-- The flags of the save button, as the attachment area has told them.
abbrev pub busy : Area → Busy
busy s = record {
  is_pending = false;
  is_creating = false;
  is_uploading = s.told_uploading;
  is_deleting = s.told_deleting;
}

-- In every state that the attachments of an item reach, the save button of the panel is disabled by
-- them exactly while an upload or a deletion is under way, where nothing else disables it; and the
-- attachment that is shown as being deleted is the one whose deletion is under way.
run-save_disabled :
    (es : List Event) (p : Panel)
    → p.is_sequential_uploading ≡ false
    → let s = (run es new_area).0 in
      (is_save_disabled (busy s) p ≡ s.upload_pending || is_some s.delete_pending)
      × (s.deleting_id ≡ s.delete_pending)
unfolding is_save_disabled
run-save_disabled es p h =
    let t = run-IsTold es new_area new_area-IsTold in
    (ground (arith, t.uploading, t.deleting), t.deleted)
