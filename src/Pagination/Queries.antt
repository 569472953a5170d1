-- ===== src/Pagination/Queries.antt =====
-- ReportListPage.tsx: the query behind a change of a filter, the page or the page size.
use expense_saas.Texts.{Chars, is_given, string}
use expense_saas.Prelude.{
  String, none, some, false, [], ◌∷◌, ◌≡◌, arith, eq_iff, refl, str_eq, if◌then◌else◌, ℕ,
}
use expense_saas.Pagination.{
  Params, get, set, delete, Filter, status, from, to, name_of, handle_filter_change,
  handle_page_change, handle_per_page_change, first_page,
}

pub get-set : (k : String) (v : Chars) (m : Params) → get k (set k v m) ≡ some v
unfolding get set
get-set k v [] = ground (arith, eq_iff k k)
get-set k v ((i, w) ∷ m) = ground (arith, eq_iff k i, get-set k v m)

pub get-set_other :
    (k j : String) (v : Chars) (m : Params) → str_eq j k ≡ false → get j (set k v m) ≡ get j m
unfolding get set
get-set_other k j v [] h = ground (arith, h)
get-set_other k j v ((i, w) ∷ m) h =
    ground (arith, h, eq_iff k i, eq_iff j i, eq_iff j k, get-set_other k j v m)

pub get-delete : (k : String) (m : Params) → get k (delete k m) ≡ none
unfolding get delete
get-delete k [] = refl
get-delete k ((i, w) ∷ m) = ground (arith, eq_iff k i, get-delete k m)

pub get-delete_other :
    (k j : String) (m : Params) → str_eq j k ≡ false → get j (delete k m) ≡ get j m
unfolding get delete
get-delete_other k j [] h = refl
get-delete_other k j ((i, w) ∷ m) h =
    ground (arith, h, eq_iff k i, eq_iff j i, eq_iff j k, get-delete_other k j m)

pub page-name : (f : Filter) → str_eq "page" (name_of f) ≡ false
page-name status = refl
page-name from = refl
page-name to = refl

-- A change of a filter sets that filter, or drops it for the empty value, goes back to the first
-- page, and leaves every other parameter as it is.
pub handle_filter_change-get :
    (f : Filter) (value : Chars) (other : String) (m : Params)
    → str_eq other "page" ≡ false
    → str_eq other (name_of f) ≡ false
    → let next = handle_filter_change f value m in
      (get "page" next ≡ some first_page)
      × (get (name_of f) next ≡ (if is_given value then some value else none))
      × (get other next ≡ get other m)
unfolding handle_filter_change
handle_filter_change-get f value other m p o =
    let first = set "page" first_page m in
    let n = name_of f in
    ground (
      arith,
      get-set "page" first_page m,
      get-set n value first,
      get-delete n first,
      get-set_other n "page" value first (page-name f),
      get-delete_other n "page" first (page-name f),
      get-set_other n other value first o,
      get-delete_other n other first o,
      get-set_other "page" other first_page m p,
    )

-- A change of the page size goes back to the first page and keeps every other parameter; a change
-- of the page keeps all of them.
pub handle_per_page_change-get :
    (size page : ℕ) (other : String) (m : Params)
    → str_eq other "page" ≡ false
    → str_eq other "per_page" ≡ false
    → (get "page" (handle_per_page_change size m) ≡ some first_page)
      × (get "per_page" (handle_per_page_change size m) ≡ some (string size))
      × (get other (handle_per_page_change size m) ≡ get other m)
      × (get "page" (handle_page_change page m) ≡ some (string page))
      × (get other (handle_page_change page m) ≡ get other m)
unfolding handle_per_page_change handle_page_change
handle_per_page_change-get size page other m p q =
    let sized = set "per_page" (string size) m in
    ground (
      arith,
      get-set "page" first_page sized,
      get-set "per_page" (string size) m,
      get-set "page" (string page) m,
      get-set_other "page" "per_page" first_page sized refl,
      get-set_other "page" other first_page sized p,
      get-set_other "per_page" other (string size) m q,
      get-set_other "page" other (string page) m p,
    )
