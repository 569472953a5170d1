-- ===== src/Navigation/Access.antt =====
-- The side bar offers what the pages let the role see.
use expense_saas.Prelude.{
  ℕ, Option, none, some, true, false, not, All, ◌≡◌, refl, arith, ◌≢◌, ◌⊎◌, ◌↔◌, ◌&&◌,
}
use expense_saas.Types.{Role, admin, approver, member, accounting}
use expense_saas.Navigation.{
  NavItem, nav_items, is_visible, page_at, guard, Page, approval_list, payment_list,
  processed_reports, is_role,
}

-- The path of the item has a page, which leaves for the dashboard exactly where the item is hidden.
abbrev pub IsConsistentFor : Role → NavItem → Type 0
IsConsistentFor role item =
    (page : Page) × (page_at item.path ≡ some page)
    × ((guard page record { role = some role; error = none }).redirects
        ≡ not (is_visible role item))

-- For every role and every item of the side bar, the path of the item has a page, which lets the
-- role stay if the item is shown to it and leaves for the dashboard if it is hidden.
pub nav_items-IsConsistentFor : (role : Role) → All (IsConsistentFor role) nav_items
unfolding page_at guard is_visible
nav_items-IsConsistentFor admin = (
  (Page.dashboard, refl, refl),
  (
    (Page.report_list, refl, refl),
    (
      (Page.report_create, refl, refl),
      (
        (Page.approval_list, refl, refl),
        (
          (Page.processed_reports, refl, refl),
          (
            (Page.payment_list, refl, refl),
            ((Page.all_reports, refl, refl), ((Page.tenant, refl, refl), tt)),
          ),
        ),
      ),
    ),
  ),
)
nav_items-IsConsistentFor approver = (
  (Page.dashboard, refl, refl),
  (
    (Page.report_list, refl, refl),
    (
      (Page.report_create, refl, refl),
      (
        (Page.approval_list, refl, refl),
        (
          (Page.processed_reports, refl, refl),
          (
            (Page.payment_list, refl, refl),
            ((Page.all_reports, refl, refl), ((Page.tenant, refl, refl), tt)),
          ),
        ),
      ),
    ),
  ),
)
nav_items-IsConsistentFor member = (
  (Page.dashboard, refl, refl),
  (
    (Page.report_list, refl, refl),
    (
      (Page.report_create, refl, refl),
      (
        (Page.approval_list, refl, refl),
        (
          (Page.processed_reports, refl, refl),
          (
            (Page.payment_list, refl, refl),
            ((Page.all_reports, refl, refl), ((Page.tenant, refl, refl), tt)),
          ),
        ),
      ),
    ),
  ),
)
nav_items-IsConsistentFor accounting = (
  (Page.dashboard, refl, refl),
  (
    (Page.report_list, refl, refl),
    (
      (Page.report_create, refl, refl),
      (
        (Page.approval_list, refl, refl),
        (
          (Page.processed_reports, refl, refl),
          (
            (Page.payment_list, refl, refl),
            ((Page.all_reports, refl, refl), ((Page.tenant, refl, refl), tt)),
          ),
        ),
      ),
    ),
  ),
)

-- The lists of the workflow, each with the role that it is for.
pub data IsWorkflowList : Page → Role → Type 0 where
  approvals : IsWorkflowList approval_list approver
  processed : IsWorkflowList processed_reports approver
  payments : IsWorkflowList payment_list accounting

is_role_iff : (role u : Role) → (is_role role u ≡ true) ↔ (u ≡ role)
is_role_iff admin admin = ground arith
is_role_iff admin approver = ground arith
is_role_iff admin member = ground arith
is_role_iff admin accounting = ground arith
is_role_iff approver admin = ground arith
is_role_iff approver approver = ground arith
is_role_iff approver member = ground arith
is_role_iff approver accounting = ground arith
is_role_iff member admin = ground arith
is_role_iff member approver = ground arith
is_role_iff member member = ground arith
is_role_iff member accounting = ground arith
is_role_iff accounting admin = ground arith
is_role_iff accounting approver = ground arith
is_role_iff accounting member = ground arith
is_role_iff accounting accounting = ground arith

-- A list of the workflow shows its content to its role alone, shows the toast of an error only
-- beside the content, and stays exactly where the user is not loaded or has the role and the error
-- is not the server's 403.
guard-IsWorkflowList :
    {page : Page} {role : Role}
    → IsWorkflowList page role
    → (user : Option Role) (error : Option (Option ℕ))
    → let o = guard page record { role = user; error = error } in
      ((o.has_content ≡ true) ↔ (user ≡ some role))
      × (o.error_toast && not o.has_content ≡ false)
      × ((o.redirects ≡ false) ↔ (((user ≡ none) ⊎ (user ≡ some role)) × (error ≢ some (some 403))))
unfolding guard
guard-IsWorkflowList approvals none error = ground arith
guard-IsWorkflowList approvals (some u) error = ground (arith, is_role_iff approver u)
guard-IsWorkflowList processed none error = ground arith
guard-IsWorkflowList processed (some u) error = ground (arith, is_role_iff approver u)
guard-IsWorkflowList payments none error = ground arith
guard-IsWorkflowList payments (some u) error = ground (arith, is_role_iff accounting u)
