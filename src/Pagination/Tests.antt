-- ===== src/Pagination/Tests.antt =====
-- The pages of 45 entries, and the queries of a list.
use expense_saas.Texts.{codes}
use expense_saas.Prelude.{[], ◌∷◌, ◌+◌, ◌≤◌, ◌<◌, ◌≡◌, refl, arith}
use expense_saas.Pagination.{count_of, page_sizes, default_standard_options, Params}
use expense_saas.Pagination.Windows.{count_of-tiles}

third_page : (count_of 3 20 45).start ≡ 41
unfolding count_of
third_page = refl

sizes : page_sizes default_standard_options 30 ≡ 10 ∷ 20 ∷ 30 ∷ 50 ∷ 100 ∷ []
unfolding page_sizes
sizes = refl

abbrev params : Params
params = ("from", codes "2026-04-01") ∷ ("page", b'3' ∷ []) ∷ []

count_of-tiles_example :
    ((count_of 3 20 45).start ≡ (count_of 2 20 45).end + 1)
    × ((count_of 3 20 45).start ≤ (count_of 3 20 45).end)
    × ((count_of 3 20 45).end ≤ (count_of 2 20 45).end + 20)
    × ((count_of 3 20 45).end < (count_of 2 20 45).end + 20 → (count_of 3 20 45).end ≡ 45)
count_of-tiles_example = count_of-tiles 2 20 45 (omega arith) (omega arith)
