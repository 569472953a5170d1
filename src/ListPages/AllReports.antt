-- ===== src/ListPages/AllReports.antt =====
-- frontend/src/pages/admin/AllReportsPage.tsx: the query of the URL, the roles and the errors.
use expense_saas.Prelude.{
  ℕ, String, Option, none, some, Bool, false, [], ◌∷◌, max, ◌≤◌, ◌≡◌, ◌∙◌, refl, arith,
  if◌then◌else◌, ◌||◌, str_eq,
}
use expense_saas.Texts.{Chars, Number, nan, pos, neg, parse_int, string, given, or_else, is_given}
use expense_saas.Texts.RoundTrip.{parse_int-string}
use expense_saas.Pagination.{Params, get, set, delete, first_page}
use expense_saas.Pagination.Queries.{get-set, get-set_other, get-delete, get-delete_other}
use expense_saas.Hooks.{AllReportsParams}
use expense_saas.ListPages.{per_page_of, text_of}

-- `Math.max(1, n || 1)`
abbrev at_least_1 : Number → ℕ
at_least_1 nan = 1
at_least_1 (pos n) = max 1 n
at_least_1 (neg n) = 1

-- `page` of AllReportsPage
unfoldable pub guarded_page_of : Option Chars → ℕ
unfolding parse_int
guarded_page_of none = 1
guarded_page_of (some s) = at_least_1 (parse_int s)

-- AllReportsFilterValues
pub record AllReportsFilterValues : Type 0 where
  pub status : Chars
  pub from : Chars
  pub to : Chars
  pub submitter_id : Chars

-- `filters`
unfoldable pub filters_of : Params → AllReportsFilterValues
unfolding get
filters_of m = record {
  status = text_of "status" m;
  from = text_of "from" m;
  to = text_of "to" m;
  submitter_id = text_of "submitter_id" m;
}

unfoldable pub all_reports_params : Params → AllReportsParams
unfolding guarded_page_of per_page_of filters_of
all_reports_params m =
    let filters = filters_of m in
    record {
      page = some (pos (guarded_page_of (get "page" m)));
      per_page = some (pos (per_page_of (get "per_page" m)));
      status = given filters.status;
      from = given filters.from;
      to = given filters.to;
      submitter_id = given filters.submitter_id;
    }

-- `if (value) next.set(name, value) else next.delete(name)`
unfoldable pub put : String → Chars → Params → Params
unfolding set delete
put name value m = if is_given value then set name value m else delete name m

-- handleFilterChange
unfoldable pub handle_filters_change : AllReportsFilterValues → Params → Params
unfolding put
handle_filters_change f m =
    put "submitter_id" f.submitter_id
      (put "to" f.to (put "from" f.from (put "status" f.status (set "page" first_page m))))

-- hasActiveFilters
abbrev pub has_active_filters : AllReportsFilterValues → Bool
has_active_filters f =
    is_given f.status || is_given f.from || is_given f.to || is_given f.submitter_id

pub get-put :
    (name : String) (value : Chars) (m : Params) → or_else (get name (put name value m)) [] ≡ value
unfolding put
get-put name [] m = rw (get-delete name m)
get-put name (c ∷ value) m = rw (get-set name (c ∷ value) m)

pub get-put_other :
    (name other : String) (value : Chars) (m : Params)
    → str_eq other name ≡ false
    → get other (put name value m) ≡ get other m
unfolding put
get-put_other name other [] m h = get-delete_other name other m h
get-put_other name other (c ∷ value) m h = get-set_other name other (c ∷ value) m h

-- After a change of the filters, the URL reads back as exactly these filters, on the first page,
-- with every parameter that is no filter as it was.
pub handle_filters_change-filters_of :
    (f : AllReportsFilterValues) (m : Params) (other : String)
    → str_eq other "page" ≡ false
    → str_eq other "status" ≡ false
    → str_eq other "from" ≡ false
    → str_eq other "to" ≡ false
    → str_eq other "submitter_id" ≡ false
    → let next = handle_filters_change f m in
      (filters_of next ≡ f)
      × (guarded_page_of (get "page" next) ≡ 1)
      × (get other next ≡ get other m)
unfolding handle_filters_change filters_of guarded_page_of
handle_filters_change-filters_of f m other p s a b i =
    let m0 = set "page" first_page m in
    let m1 = put "status" f.status m0 in
    let m2 = put "from" f.from m1 in
    let m3 = put "to" f.to m2 in
    let who = f.submitter_id in
    (
      rw (
        get-put_other "submitter_id" "status" who m3 refl,
        get-put_other "to" "status" f.to m2 refl,
        get-put_other "from" "status" f.from m1 refl,
        get-put "status" f.status m0,
        get-put_other "submitter_id" "from" who m3 refl,
        get-put_other "to" "from" f.to m2 refl,
        get-put "from" f.from m1,
        get-put_other "submitter_id" "to" who m3 refl,
        get-put "to" f.to m2,
        get-put "submitter_id" who m3,
      ),
      rw (
        get-put_other "submitter_id" "page" who m3 refl,
        get-put_other "to" "page" f.to m2 refl,
        get-put_other "from" "page" f.from m1 refl,
        get-put_other "status" "page" f.status m0 refl,
        get-set "page" first_page m,
      ),
      get-put_other "submitter_id" other who m3 i
          ∙ get-put_other "to" other f.to m2 b
          ∙ get-put_other "from" other f.from m1 a
          ∙ get-put_other "status" other f.status m0 s
          ∙ get-set_other "page" other first_page m p,
    )

at_least_1-le : (n : Number) → 1 ≤ at_least_1 n
at_least_1-le nan = omega arith
at_least_1-le (pos n) = omega arith
at_least_1-le (neg n) = omega arith

-- Whatever the URL says, AllReportsPage asks for a page from 1 on; a page from 1 on that its footer
-- writes is the page it asks for.
guarded_page_of-le :
    (page : Option Chars) (n : ℕ)
    → 1 ≤ n
    → (1 ≤ guarded_page_of page) × (guarded_page_of (some (string n)) ≡ n)
unfolding guarded_page_of
guarded_page_of-le none n h = (omega arith, rw (parse_int-string n) (omega arith))
guarded_page_of-le (some s) n h =
    (at_least_1-le (parse_int s), rw (parse_int-string n) (omega arith))
