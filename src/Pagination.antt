-- ===== src/Pagination.antt =====
-- frontend/src/components/ui/AppPaginationFooter.tsx and PageSizeSelector.tsx, and the query
-- parameters of the list pages (frontend/src/pages/reports/ReportListPage.tsx).
pub mod Windows
pub mod Options
pub mod Queries
mod Tests
use expense_saas.Texts.{Chars, is_given, string}
use expense_saas.Prelude.{
  ℕ, String, Option, none, some, List, [], ◌∷◌, ◌++◌, ◌==◌, ◌+◌, ◌-◌, ◌*◌, ltb, min, max, str_eq,
  if◌then◌else◌,
}

-- The numbers in the text of AppPaginationFooter: the first and the last entry, and the total.
pub record Count : Type 0 where
  pub start : ℕ
  pub end : ℕ
  pub total : ℕ

-- countText; the current page is at least 1.
unfoldable pub count_of : (current_page per_page total_count : ℕ) → Count
count_of current_page per_page total_count = record {
  start = if total_count == 0 then 0 else (current_page - 1) * per_page + 1;
  end = min (current_page * per_page) total_count;
  total = total_count;
}

-- normalizedTotalPages
abbrev pub normalized_total_pages : ℕ → ℕ
normalized_total_pages total_pages = max total_pages 1

-- DEFAULT_STANDARD_OPTIONS
abbrev pub default_standard_options : List ℕ
default_standard_options = 10 ∷ 20 ∷ 50 ∷ 100 ∷ []

-- One value among others in ascending order, each value once: what `new Set` and `sort` by the
-- difference make of a list.
unfoldable pub insert : ℕ → List ℕ → List ℕ
insert x [] = x ∷ []
insert x (y ∷ ys) =
    let rest = insert x ys in if x == y then y ∷ ys else if ltb x y then x ∷ y ∷ ys else y ∷ rest

unfoldable pub sort_unique : List ℕ → List ℕ
unfolding insert
sort_unique [] = []
sort_unique (x ∷ xs) = insert x (sort_unique xs)

-- The options of PageSizeSelector.
unfoldable pub page_sizes : (standard_options : List ℕ) (per_page : ℕ) → List ℕ
unfolding sort_unique
page_sizes standard_options per_page = sort_unique (standard_options ++ per_page ∷ [])

-- URLSearchParams, with `get`, `set` and `delete` where each name stands once.
abbrev pub Params : Type 0
Params = List (String × Chars)

unfoldable pub get : String → Params → Option Chars
get k [] = none
get k ((i, v) ∷ m) = let rest = get k m in if str_eq k i then some v else rest

unfoldable pub set : String → Chars → Params → Params
set k v [] = (k, v) ∷ []
set k v ((i, w) ∷ m) = let rest = set k v m in if str_eq k i then (i, v) ∷ m else (i, w) ∷ rest

unfoldable pub delete : String → Params → Params
delete k [] = []
delete k ((i, w) ∷ m) = let rest = delete k m in if str_eq k i then rest else (i, w) ∷ rest

-- The filters of ReportListPage.
pub data Filter : Type 0 where
  status from to : Filter

abbrev pub name_of : Filter → String
name_of status = "status"
name_of from = "from"
name_of to = "to"

-- The text of the first page.
abbrev pub first_page : Chars
first_page = b'1' ∷ []

-- handleStatusChange, handleFromChange and handleToChange
unfoldable pub handle_filter_change : Filter → Chars → Params → Params
unfolding set delete
handle_filter_change f value m =
    let next = set "page" first_page m in
    if is_given value then set (name_of f) value next else delete (name_of f) next

-- handlePageChange and handlePerPageChange
unfoldable pub handle_page_change : (new_page : ℕ) → Params → Params
unfolding set
handle_page_change new_page m = set "page" (string new_page) m

unfoldable pub handle_per_page_change : (size : ℕ) → Params → Params
unfolding set
handle_per_page_change size m = set "page" first_page (set "per_page" (string size) m)
