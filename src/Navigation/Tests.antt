-- ===== src/Navigation/Tests.antt =====
-- The side bar of an approver.
use expense_saas.Prelude.{some, true, [], All, ◌≡◌, refl, Option, ℕ}
use expense_saas.Types.{approver}
use expense_saas.Navigation.{nav_items, is_active}
use expense_saas.Navigation.Access.{IsConsistentFor, nav_items-IsConsistentFor}

nav_items-IsConsistentFor_example : All (IsConsistentFor approver) nav_items
nav_items-IsConsistentFor_example = nav_items-IsConsistentFor approver

-- Two items are active on one page.
two_active :
    (is_active "/reports/new" record { label = ""; path = "/reports"; roles = [] } ≡ true)
    × (is_active "/reports/new" record { label = ""; path = "/reports/new"; roles = [] } ≡ true)
unfolding is_active
two_active = (refl, refl)

abbrev refused : Option (Option ℕ)
refused = some (some 500)
