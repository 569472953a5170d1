-- ===== src/Client.antt =====
-- frontend/src/api/client.ts: one call of the API with its refresh and retry, run alone. The
-- network answers each request by a function of all the requests before it.
pub mod Trace
pub mod Session
pub mod SingleFlight
mod Tests
use expense_saas.Prelude.{
  ℕ, String, Option, none, some, Bool, true, false, List, [], ◌∷◌, ◌++◌, ◌==◌, ◌||◌, ◌&&◌, leb,
  str_eq, truthy, if◌then◌else◌,
}
use Prim.Native.String
use expense_saas.Types.{ValidationError}
use expense_saas.Store.{Store, get_access_token, get_refresh_token, set_tokens, clear_tokens}
use expense_saas.Messages.{infer_code_from_status, message_of}

pub data Method : Type 0 where
  get post put delete : Method

-- What a request carries: nothing, a JSON text, or form data.
pub data Body : Type 0 where
  empty : Body
  json : String → Body
  refresh_token : String → Body  -- the JSON text of `{ refresh_token }`
  form_data : String → Body

pub record Request : Type 0 where
  pub method : Method
  pub path : String
  pub headers : List (String × String)
  pub body : Body

-- The body of a response as `res.json()` reads it: a parse failure, the ApiError shape, the token
-- pair in `data`, or another JSON value. A successful answer of the refresh endpoint that parses has
-- the pair, or no `data` at all, on which reading the pair throws.
pub data Payload : Type 0 where
  not_json : Payload
  api_error :
      (code : String) (message : Option String) (details : Option (List ValidationError)) → Payload
  auth_tokens : (access refresh : String) → Payload
  other : String → Payload

pub record Response : Type 0 where
  pub status : ℕ
  pub empty_content : Bool  -- the header content-length is "0"
  pub payload : Payload

-- A call of `fetch` answers, or rejects: the network failed or the signal was aborted.
pub data Fault : Type 0 where
  network abort : Fault

pub data Reply : Type 0 where
  answered : Response → Reply
  rejected : Fault → Reply

-- `response.ok`
abbrev pub is_ok : Response → Bool
is_ok r = leb 200 r.status && leb r.status 299

pub record ApiClientError : Type 0 where
  pub message : String
  pub status : ℕ
  pub code : String
  pub details : Option (List ValidationError)

pub data Result : Type 0 where
  success : Option Payload → Result  -- `none` is undefined
  failed : ApiClientError → Result
  thrown : Fault → Result
  bad_json : Result  -- the body of a successful response is no JSON

-- The page: the token store, where it was last sent, and what it has asked of the network.
pub record Page : Type 0 where
  pub store : Store
  pub location : Option String
  pub log : List Request

-- handleErrorResponse: the error that it throws.
unfoldable pub handle_error_response : Response → ApiClientError
handle_error_response r = elim r.payload [
  | api_error code message details ↦ record {
    message = message_of code message;
    status = r.status;
    code = code;
    details = details;
  }
  | _ ↦ record {
    message = message_of (infer_code_from_status r.status) none;
    status = r.status;
    code = infer_code_from_status r.status;
    details = none;
  }
]

abbrev pub login_path : String
login_path = "/api/auth/login"

abbrev pub refresh_path : String
refresh_path = "/api/auth/refresh"

abbrev pub unauthorized : ApiClientError
unauthorized = record {
  message = "Unauthorized";
  status = 401;
  code = "UNAUTHORIZED";
  details = none;
}

-- What `api.get`, `api.post`, `api.put` and `api.delete` hand to apiClient: no headers of their own.
pub record Init : Type 0 where
  pub method : Method
  pub path : String
  pub body : Body

abbrev pub json_type : String × String
json_type = ("Content-Type", "application/json")

abbrev pub content_type : Body → List (String × String)
content_type (form_data _) = []
content_type _ = json_type ∷ []

abbrev pub bearer : String → String × String
bearer token = ("Authorization", String.◌++◌ "Bearer " token)

abbrev authorization : Option String → List (String × String)
authorization none = []
authorization (some token) = if truthy token then bearer token ∷ [] else []

abbrev is_present : Option String → Bool
is_present none = false
is_present (some token) = truthy token

-- The headers of the first request, and of the retry: its token replaces the old one, if any.
unfoldable pub headers_of : Init → Option String → List (String × String)
headers_of init token = content_type init.body ++ authorization token

unfoldable pub retry_headers_of : Init → (old new : Option String) → List (String × String)
unfolding headers_of
retry_headers_of init old new = headers_of init (if is_present new then new else old)

abbrev pub request_of : Init → List (String × String) → Request
request_of init headers = record {
  method = init.method;
  path = init.path;
  headers = headers;
  body = init.body;
}

abbrev pub refresh_request : String → Request
refresh_request token = record {
  method = post;
  path = refresh_path;
  headers = json_type ∷ [];
  body = refresh_token token;
}

abbrev body_of : Response → Result
body_of r =
    if r.status == 204 || r.empty_content
    then success none
    else elim r.payload [ not_json ↦ bad_json | v ↦ success (some v) ]

-- What the caller gets from a response that is not to be retried.
unfoldable pub result_of : Response → Result
result_of r = if is_ok r then body_of r else failed (handle_error_response r)

-- `clearTokens(); window.location.href = '/login'; return false`
abbrev pub sign_out : Page → Bool × Page
sign_out p = (false, record p { store = clear_tokens p.store; location = some "/login" })

abbrev pub is_auth_endpoint : String → Bool
is_auth_endpoint path = str_eq path login_path || str_eq path refresh_path

module _ (fetch : List Request → Request → Reply) where
  abbrev pub sent : Request → Page → Page
  sent r p = record p { log = p.log ++ r ∷ [] }

  -- The part of doRefresh that reads the answer.
  pub refreshed_by : Reply → Page → Bool × Page
  refreshed_by (rejected _) p = sign_out p
  refreshed_by (answered r) p =
      if is_ok r
      then elim r.payload [
        | auth_tokens access refresh ↦
            (true, record p { store = set_tokens access refresh p.store })
        | _ ↦ sign_out p
      ]
      else sign_out p

  unfoldable pub do_refresh : Page → Bool × Page
  unfolding refreshed_by
  do_refresh p = elim (get_refresh_token p.store) [
    | none ↦ sign_out p
    | some token ↦
        if truthy token
        then refreshed_by (fetch p.log (refresh_request token)) (sent (refresh_request token) p)
        else sign_out p
  ]

  pub final : Reply → Result
  final (rejected f) = thrown f
  final (answered r) = result_of r

  -- The second request of a call, after a refresh that went through.
  pub retry : Init → (old : Option String) → Page → Result × Page
  retry init old p =
      let request = request_of init (retry_headers_of init old (get_access_token p.store)) in
      (final (fetch p.log request), sent request p)

  -- A 401: an error at once on the login and refresh endpoints, else a refresh and a retry.
  pub on_unauthorized : Init → (old : Option String) → Response → Page → Result × Page
  on_unauthorized init old r p =
      if is_auth_endpoint init.path
      then (failed (handle_error_response r), p)
      else let (refreshed, q) = do_refresh p in
        if refreshed then retry init old q else (failed unauthorized, q)

  pub on_reply : Init → (old : Option String) → Reply → Page → Result × Page
  on_reply init old (rejected f) p = (thrown f, p)
  on_reply init old (answered r) p =
      if r.status == 401 then on_unauthorized init old r p else (result_of r, p)

  unfoldable pub api_client : Init → Page → Result × Page
  api_client init p =
      let token = get_access_token p.store in
      let request = request_of init (headers_of init token) in
      on_reply init token (fetch p.log request) (sent request p)
