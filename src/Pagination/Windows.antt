-- ===== src/Pagination/Windows.antt =====
-- AppPaginationFooter.tsx: the numbers of the pages fit together.
use expense_saas.Prelude.{ℕ, ◌+◌, ◌*◌, ◌≤◌, ◌<◌, ◌≡◌, arith}
use expense_saas.Pagination.{count_of}

mul_suc : (p n : ℕ) → (p + 1) * n ≡ p * n + n
mul_suc p n = grind arith

-- A page on which there are entries starts where the page before it ends, has at most `per_page`
-- entries and at least one, and ends at the total if the entries do not fill it.
pub count_of-tiles :
    (page per_page total : ℕ)
    → 0 < per_page
    → page * per_page < total
    → let before = count_of page per_page total in
      let here = count_of (page + 1) per_page total in
      (here.start ≡ before.end + 1)
      × (here.start ≤ here.end)
      × (here.end ≤ before.end + per_page)
      × (here.end < before.end + per_page → here.end ≡ total)
unfolding count_of
count_of-tiles page n total h lt = ground (arith, mul_suc page n)
