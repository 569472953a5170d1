-- ===== src/AttachmentList/Tests.antt =====
-- A receipt.
use expense_saas.Prelude.{some, none, false, [], ◌∷◌, ◌+◌, ◌≡◌, refl}
use expense_saas.Texts.{codes}
use expense_saas.AttachmentList.{
  Access, resolved, locate_tab, open_tab, handle_preview, handle_download, format_file_size,
}
use expense_saas.AttachmentList.Outcomes.{
  errors, shown, opened, closed, handle_preview-handle_download,
}

sizes :
    (format_file_size 500 ≡ codes "500 B")
    × (format_file_size 245760 ≡ codes "240 KB")
    × (format_file_size 2831155 ≡ codes "2.7 MB")
    × (format_file_size 1048575 ≡ codes "1024 KB")
unfolding format_file_size
sizes = (refl, refl, refl, refl)

abbrev receipt : Access
receipt = record { url = "https://storage/receipt"; file_name = "receipt.pdf" }

-- A refetch that fails after a success has both the old URL and an error; the old URL is opened.
stale :
    handle_preview false (resolved (some receipt) (some "expired"))
    ≡ open_tab ∷ locate_tab "https://storage/receipt" ∷ []
unfolding handle_preview
stale = refl

handle_preview-handle_download_example :
    (shown (handle_preview false (resolved none (some "gone")))
        + errors (handle_preview false (resolved none (some "gone")))
      ≡ 1)
    × (opened (handle_preview false (resolved none (some "gone")))
        ≡ shown (handle_preview false (resolved none (some "gone")))
          + closed (handle_preview false (resolved none (some "gone"))))
    × (shown (handle_download (resolved none (some "gone")))
          + errors (handle_download (resolved none (some "gone")))
        ≡ 1)
    × (opened (handle_download (resolved none (some "gone"))) ≡ 0)
handle_preview-handle_download_example =
    handle_preview-handle_download false (resolved none (some "gone"))
