-- ===== src/Auth/Tests.antt =====
-- A visitor of a report, and the forms of the login and of a new password.
use expense_saas.Prelude.{none, some, true, false, [], ◌∷◌, ◌≡◌, refl, ◌==◌, if◌then◌else◌, arith}
use expense_saas.Texts.{codes, Chars}
use expense_saas.Store.{get_access_token, get_refresh_token}
use expense_saas.Hooks.{dashboard, query_key, current_user}
use expense_saas.Hooks.Screens.{begins}
use expense_saas.Auth.{
  Tab, signed_in, private_route, login_ends, reset_ends, api_client_error, form, token_invalid,
  other_error,
}
use expense_saas.Auth.Session.{login_ends-returns, attempts, Splits, is_search}
use expense_saas.Auth.Schemas.{SignupInput, PasswordResetFormValues}

abbrev visitor : Tab
visitor = record {
  store = record {
    access_token = none;
    refresh_token = none;
    session = record { reads = true; writes = true; removes = true; items = [] };
  };
  cache = record { query_key = query_key dashboard; is_invalidated = false } ∷ [];
  location = record { pathname = codes "/reports/7"; search = codes "?tab=1"; from = none };
  prefetched = [];
  api_error = none;
}

visitor_access : get_access_token visitor.store ≡ none
unfolding get_access_token
visitor_access = refl

-- A router that splits at the first question mark.
abbrev split : Chars → Chars × Chars
split [] = ([], [])
split (c ∷ s) = let rest = split s in if c == b'?' then ([], c ∷ s) else (c ∷ rest.0, rest.1)

split-search : (s : Chars) → is_search s ≡ true → split s ≡ ([], s)
split-search [] h = refl
split-search (c ∷ s) h = ground (arith, h)

split-Splits : Splits split
split-Splits [] s p h = split-search s h
split-Splits (c ∷ cs) s p h = ground (arith, p, split-Splits cs s, h)

abbrev tried : Tab
tried = attempts begins split (other_error ∷ []) (private_route visitor)

login_ends-returns_example :
    (tried.location.pathname ≡ codes "/login")
    × ((login_ends begins split (signed_in "a" "r") tried).location.pathname ≡ codes "/reports/7")
    × ((login_ends begins split (signed_in "a" "r") tried).location.search ≡ codes "?tab=1")
    × (private_route (login_ends begins split (signed_in "a" "r") tried)
        ≡ login_ends begins split (signed_in "a" "r") tried)
    × (get_refresh_token (login_ends begins split (signed_in "a" "r") tried).store ≡ some "r")
login_ends-returns_example =
    login_ends-returns begins split (other_error ∷ []) visitor "a" "r" split-Splits visitor_access
      refl refl

-- The answer that the dashboard had for another user is kept, and not marked.
dashboard_kept :
    (login_ends begins split (signed_in "a" "r") visitor).cache
    ≡ record { query_key = query_key dashboard; is_invalidated = false }
      ∷ record { query_key = query_key current_user; is_invalidated = false }
      ∷ []
unfolding login_ends query_key
dashboard_kept = refl

expired :
    reset_ends
      (some (api_client_error "TOKEN_EXPIRED"))
      record { view_state = form; api_error = none }
    ≡ record { view_state = token_invalid; api_error = none }
unfolding reset_ends
expired = refl

abbrev input : SignupInput
input = record {
  company_name = codes "Acme";
  user_name = codes "Jo";
  email = codes "jo@acme.example";
  password = codes "correct horse";
}

abbrev twice : PasswordResetFormValues
twice = record { new_password = codes "new secret"; confirm_password = codes "new secret" }
