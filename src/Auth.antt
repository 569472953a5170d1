-- ===== src/Auth.antt =====
-- Signing in and out of the frontend: hooks/useAuth.ts, useLogin.ts, useSignup.ts and useLogout.ts,
-- components/auth/PrivateRoute.tsx, handleLogout of components/layout/AppLayout.tsx, and the pages
-- login/LoginPage.tsx, signup/SignupPage.tsx, password-reset/PasswordResetPage.tsx and
-- PasswordResetRequestPage.tsx (all under frontend/src). What the server answers is an argument;
-- the matching of keys is the query client's, the reading of a path the router's.
pub mod Schemas
pub mod Session
mod Tests
use expense_saas.Types.{Role}
use expense_saas.Prelude.{
  String, Option, none, some, Bool, true, false, List, [], ◌∷◌, ◌++◌, ◌||◌, str_eq, truthy,
  if◌then◌else◌, ◌&&◌, map,
}
use expense_saas.Texts.{or_else, Chars, codes}
use expense_saas.Store.{Store, get_access_token, get_refresh_token, set_tokens, clear_tokens}
use expense_saas.Hooks.{Query, current_user, QueryKey, Part}
use expense_saas.Hooks.Changes.Mutations.{KeyFilter}

-- What a request throws.
pub data Failure : Type 0 where
  api_client_error : (code : String) → Failure
  other_error : Failure

-- How a login or a signup ends.
pub data Answer : Type 0 where
  signed_in : (access_token refresh_token : String) → Answer
  failed : Failure → Answer

-- An answer that the query client keeps.
pub record Entry : Type 0 where
  pub query_key : QueryKey
  pub is_invalidated : Bool

-- The location of the router, with `state.from`.
pub record Location : Type 0 where
  pub pathname : Chars
  pub search : Chars
  pub from : Option Chars

-- The browser tab: the token store, the cache, the location, the queries that are prefetched, and
-- the error on the page.
pub record Tab : Type 0 where
  pub store : Store
  pub cache : List Entry
  pub location : Location
  pub prefetched : List Query
  pub api_error : Option String

unfoldable pub is_authenticated : Store → Bool
unfolding get_access_token
is_authenticated s = elim (get_access_token s) [ none ↦ false | some _ ↦ true ]

-- PrivateRoute
unfoldable pub private_route : Tab → Tab
unfolding is_authenticated
private_route t = if is_authenticated t.store then t else record t {
  location = record {
    pathname = codes "/login";
    search = [];
    from = some (t.location.pathname ++ t.location.search);
  };
}

-- `navigate` to a path without a query
abbrev pub go : String → Location
go path = record { pathname = codes path; search = []; from = none }

abbrev rate_limited : String
rate_limited = "しばらく待ってから再試行してください"

-- getLoginErrorMessage
unfoldable pub login_error_message : Failure → String
login_error_message (api_client_error code) =
    if str_eq code "RATE_LIMIT_EXCEEDED" then rate_limited else "メールアドレスまたはパスワードが正しくありません"
login_error_message other_error = "メールアドレスまたはパスワードが正しくありません"

-- getSignupErrorMessage
unfoldable pub signup_error_message : Failure → String
signup_error_message (api_client_error code) =
    if str_eq code "EMAIL_ALREADY_EXISTS"
    then "このメールアドレスは既に登録されています"
    else if str_eq code "RATE_LIMIT_EXCEEDED"
    then rate_limited
    else "サーバーエラーが発生しました"
signup_error_message other_error = "サーバーエラーが発生しました"

-- getErrorMessage of the two pages for a password reset
unfoldable pub reset_error_message : Failure → String
reset_error_message (api_client_error code) =
    if str_eq code "RATE_LIMIT_EXCEEDED" then rate_limited else "サーバーエラーが発生しました"
reset_error_message other_error = "サーバーエラーが発生しました"

-- `['auth', 'me']`
abbrev pub me : KeyFilter
me = "auth" ∷ "me" ∷ []

-- The key consists of exactly these texts.
abbrev pub is_key : KeyFilter → QueryKey → Bool
is_key [] [] = true
is_key (s ∷ texts) (Part.text t ∷ key) = str_eq s t && is_key texts key
is_key _ _ = false

abbrev to_key : KeyFilter → QueryKey
to_key = map Part.text

-- The entry that `prefetchQuery` fills: the one of the key, or a new one.
abbrev pub prefetch : KeyFilter → List Entry → List Entry
prefetch texts [] = record { query_key = to_key texts; is_invalidated = false } ∷ []
prefetch texts (e ∷ es) = if is_key texts e.query_key then e ∷ es else e ∷ prefetch texts es

-- The matching of keys, and how the router reads a path with its query.
module _ (matches : KeyFilter → QueryKey → Bool) (parse_path : Chars → Chars × Chars) where
  -- `invalidateQueries`
  abbrev pub invalidate : KeyFilter → List Entry → List Entry
  invalidate filter [] = []
  invalidate filter (e ∷ es) =
      record e { is_invalidated = e.is_invalidated || matches filter e.query_key }
      ∷ invalidate filter es

  -- `onSuccess` of useLogin and useSignup
  unfoldable pub on_success : (access refresh : String) → Tab → Tab
  unfolding set_tokens
  on_success access refresh t = record t {
    store = set_tokens access refresh t.store;
    cache = prefetch me (invalidate me t.cache);
    prefetched = t.prefetched ++ current_user ∷ [];
  }

  -- handleSubmit of LoginPage, after `setApiError(null)`; the hook has stored the tokens before.
  unfoldable pub login_ends : Answer → Tab → Tab
  unfolding on_success login_error_message
  login_ends (signed_in access refresh) t =
      let signed = on_success access refresh (record t { api_error = none }) in
      let path = parse_path (or_else t.location.from (codes "/dashboard")) in
      record signed {
        store = set_tokens access refresh signed.store;
        location = record { pathname = path.0; search = path.1; from = none };
      }
  login_ends (failed failure) t = record t { api_error = some (login_error_message failure) }

  -- handleSubmit of SignupPage
  unfoldable pub signup_ends : Answer → Tab → Tab
  unfolding on_success signup_error_message
  signup_ends (signed_in access refresh) t =
      let signed = on_success access refresh (record t { api_error = none }) in
      record signed { store = set_tokens access refresh signed.store; location = go "/dashboard" }
  signup_ends (failed failure) t = record t { api_error = some (signup_error_message failure) }

-- The refresh token that useLogout sends, if it sends a request.
unfoldable pub logout_request : Store → Option String
unfolding get_refresh_token
logout_request s = elim (get_refresh_token s) [
  | none ↦ none
  | some token ↦ if truthy token then some token else none
]

-- `onSettled` of useLogout and of handleLogout: the request has ended, or failed, or was not sent.
unfoldable pub logout_ends : Tab → Tab
unfolding clear_tokens
logout_ends t = record t { store = clear_tokens t.store; cache = []; location = go "/login" }

-- AppLayout: what it shows around a page, and whether its effect leads to the login page.
pub data Layout : Type 0 where
  skeleton nothing : Layout
  frame : (role : Role) → Layout

unfoldable pub app_layout : (is_loading : Bool) (user : Option Role) → Layout × Bool
app_layout true user = (skeleton, false)
app_layout false none = (nothing, true)
app_layout false (some role) = (frame role, false)

-- PasswordResetPage: `viewState` and `apiError`.
pub data ViewState : Type 0 where
  form complete token_invalid : ViewState

pub record PasswordResetPage : Type 0 where
  pub view_state : ViewState
  pub api_error : Option String

-- handleSubmit of PasswordResetPage; `none` is success.
unfoldable pub reset_ends : Option Failure → PasswordResetPage → PasswordResetPage
unfolding reset_error_message
reset_ends none p = record { view_state = complete; api_error = none }
reset_ends (some (api_client_error code)) p =
    if str_eq code "INVALID_TOKEN" || str_eq code "TOKEN_EXPIRED"
    then record { view_state = token_invalid; api_error = none }
    else record p { api_error = some (reset_error_message (api_client_error code)) }
reset_ends (some other_error) p = record p { api_error = some (reset_error_message other_error) }

-- PasswordResetRequestPage: `isSubmitted` and `apiError`; handleSubmit
pub record PasswordResetRequestPage : Type 0 where
  pub is_submitted : Bool
  pub api_error : Option String

unfoldable pub request_ends : Option Failure → PasswordResetRequestPage → PasswordResetRequestPage
unfolding reset_error_message
request_ends none p = record { is_submitted = true; api_error = none }
request_ends (some failure) p = record p { api_error = some (reset_error_message failure) }
