-- ===== src/ListPages/NameFilter.antt =====
-- The filter of ApprovalListPage and PaymentListPage: the input, its debounced value and the URL.
use expense_saas.ListPages.Refinement.{page_of-first}
use expense_saas.Prelude.{
  String, Option, none, some, true, false, List, [], ◌∷◌, ◌≡◌, ◌∙◌, refl, sym, ap, arith,
  Bool-cases, inl, inr, str_eq,
}
use expense_saas.Texts.{Chars, pos, given, or_else, same, string}
use expense_saas.Texts.RoundTrip.{same→eq}
use expense_saas.Pagination.{
  Params, get, set, first_page, handle_page_change, handle_per_page_change,
}
use expense_saas.Pagination.Queries.{get-set, get-set_other}
use expense_saas.ListPages.{text_of}
use expense_saas.ListPages.AllReports.{get-put, get-put_other}
use expense_saas.ListPages.Names.{
  NamePage, reflect, open_page, handle_applicant_name_change, debounce, fire, take_over,
  handle_filter_reset, Event, change_name, change_page, change_per_page, timer_ends, reset, step,
  run, name_params,
}

-- The filter of the URL is the debounced value, and the input is the value that the timer will take
-- over, or the debounced value where no timer is set.
pub record IsReflected (p : NamePage) : Type 0 where
  pub url : text_of "applicant_name" p.search_params ≡ p.debounced_applicant_name
  pub input : or_else p.timer p.debounced_applicant_name ≡ p.applicant_name_input

reflect-text : (name : Chars) (m : Params) → text_of "applicant_name" (reflect name m) ≡ name
unfolding reflect
reflect-text name m = get-put "applicant_name" name (set "page" first_page m)

open_page-IsReflected : (m : Params) → IsReflected (open_page m)
unfolding open_page
open_page-IsReflected m = record { url = reflect-text (text_of "applicant_name" m) m; input = refl }

-- A new debounced value goes to the URL; an equal one must stand there already.
debounce-IsReflected :
    (value : Chars) (p : NamePage)
    → (same value p.debounced_applicant_name ≡ true
        → text_of "applicant_name" p.search_params ≡ p.debounced_applicant_name)
    → or_else p.timer value ≡ p.applicant_name_input
    → IsReflected (debounce value p)
unfolding debounce
debounce-IsReflected value p url input = elim (Bool-cases (same value p.debounced_applicant_name)) [
  | inl h ↦
      rw h record { url = url h; input = ap (or_else p.timer) (sym (same→eq value _ h)) ∙ input }
  | inr h ↦ rw h record { url = reflect-text value p.search_params; input = input }
]

handle_applicant_name_change-IsReflected :
    (value : Chars) (p : NamePage)
    → IsReflected p
    → IsReflected (handle_applicant_name_change value p)
unfolding handle_applicant_name_change
handle_applicant_name_change-IsReflected value p sound =
    elim (Bool-cases (same value p.applicant_name_input)) [
      | inl h ↦ rw h sound
      | inr h ↦ rw h record { url = sound.url; input = refl }
    ]

take_over-IsReflected :
    (t : Option Chars) (p : NamePage) → p.timer ≡ t → IsReflected p → IsReflected (take_over t p)
unfolding take_over
take_over-IsReflected none p h sound = sound
take_over-IsReflected (some value) p h sound =
    debounce-IsReflected value (record p { timer = none }) (λ _. sound.url)
      (ap (λ t. or_else t p.debounced_applicant_name) (sym h) ∙ sound.input)

-- Where nothing is typed, the timer takes over nothing.
or_else-empty : (t : Option Chars) (d v : Chars) → or_else t d ≡ v → [] ≡ v → or_else t [] ≡ v
or_else-empty none d v h e = e
or_else-empty (some value) d v h e = h

handle_filter_reset-IsReflected :
    (p : NamePage) → IsReflected p → IsReflected (handle_filter_reset p)
unfolding handle_filter_reset handle_applicant_name_change get
handle_filter_reset-IsReflected p sound = elim (Bool-cases (same [] p.applicant_name_input)) [
  | inl h ↦ rw h (
      debounce-IsReflected [] (record p { search_params = [] }) (same→eq [] _)
        (or_else-empty p.timer _ _ sound.input (same→eq [] _ h)))
  | inr h ↦ rw h (
      debounce-IsReflected []
        (record p { search_params = []; applicant_name_input = []; timer = some [] }) (same→eq [] _)
        refl)
]

-- Another parameter of the URL leaves the filter as it is.
keeps :
    (name : String) (value : Chars) (m : Params)
    → str_eq "applicant_name" name ≡ false
    → text_of "applicant_name" (set name value m) ≡ text_of "applicant_name" m
keeps name value m h = ap (λ o. or_else o []) (get-set_other name "applicant_name" value m h)

step-IsReflected : (e : Event) (p : NamePage) → IsReflected p → IsReflected (step e p)
unfolding step handle_page_change handle_per_page_change
step-IsReflected (change_name value) p sound =
    handle_applicant_name_change-IsReflected value p sound
step-IsReflected (change_page n) p sound = record {
  url = keeps "page" (string n) p.search_params refl ∙ sound.url;
  input = sound.input;
}
step-IsReflected (change_per_page n) p sound =
    let sized = set "per_page" (string n) p.search_params in
    record {
      url =
          keeps "page" first_page sized refl
          ∙ keeps "per_page" (string n) p.search_params refl
          ∙ sound.url;
      input = sound.input;
    }
step-IsReflected timer_ends p sound = take_over-IsReflected p.timer p refl sound
step-IsReflected reset p sound = handle_filter_reset-IsReflected p sound

run-IsReflected : (es : List Event) (p : NamePage) → IsReflected p → IsReflected (run es p)
unfolding run
run-IsReflected [] p sound = sound
run-IsReflected (e ∷ es) p sound = run-IsReflected es (step e p) (step-IsReflected e p sound)

-- From the opening of the page on, whatever the user types, pages through or resets, the filter in
-- the URL is the debounced value, and the input is what the timer will take over, or the debounced
-- value where no timer is set.
pub run-open_page-IsReflected : (es : List Event) (m : Params) → IsReflected (run es (open_page m))
run-open_page-IsReflected es m = run-IsReflected es (open_page m) (open_page-IsReflected m)

take_over-timer : (t : Option Chars) (p : NamePage) → p.timer ≡ t → (take_over t p).timer ≡ none
unfolding take_over debounce
take_over-timer none p h = h
take_over-timer (some value) p h = ground arith

-- When the timer has ended after any use of the page, the list is asked for the name in the input,
-- or for all names where the input is empty.
fire-name_params :
    (es : List Event) (m : Params)
    → let p = run es (open_page m) in
      (name_params (fire p).search_params).applicant_name ≡ given (fire p).applicant_name_input
unfolding name_params
fire-name_params es m =
    let p = run es (open_page m) in
    let sound = take_over-IsReflected p.timer p refl (run-open_page-IsReflected es m) in
    let ended =
      ap (λ t. or_else t (fire p).debounced_applicant_name) (take_over-timer p.timer p refl) in
    ap given (sound.url ∙ sym ended ∙ sound.input)

-- Opening the page at a URL goes to the first page, whichever page the URL names; the page size
-- and the filter are kept.
pub open_page-name_params :
    (m : Params)
    → name_params (open_page m).search_params ≡ record (name_params m) { page = some (pos 1) }
unfolding name_params open_page reflect
open_page-name_params m =
    let name = text_of "applicant_name" m in
    let first = set "page" first_page m in
    rw (
      get-put_other "applicant_name" "page" name first refl,
      get-set "page" first_page m,
      page_of-first,
      get-put_other "applicant_name" "per_page" name first refl,
      get-set_other "page" "per_page" first_page m refl,
      get-put "applicant_name" name first,
    )
