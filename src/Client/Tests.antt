-- ===== src/Client/Tests.antt =====
-- One API call against small networks, and a schedule of refreshes.
use expense_saas.Prelude.{none, some, true, false, List, [], ◌∷◌, ◌++◌, ◌≡◌, refl, arith, ℕ}
use expense_saas.Store.{
  Storage, load, set_tokens, clear_tokens, get_access_token, get_refresh_token, insert, lookup,
  erase,
}
use expense_saas.Messages.{message_of, infer_code_from_status, entry, server_error_messages}
use expense_saas.Client.{
  Request, Response, Reply, answered, rejected, network, Page, Init, get, post, empty, json,
  not_json, other, auth_tokens, success, thrown, api_client, on_reply, on_unauthorized, do_refresh,
  refreshed_by, retry, final, result_of, handle_error_response, headers_of, retry_headers_of, sent,
  refresh_request, login_path,
}
use expense_saas.Client.Session.{
  first_of, Grants, retry_of, KeepsSession, api_client-session, api_client-retried,
}
use expense_saas.Client.SingleFlight.{
  returned, no_flights, call, answer, continue, Event, run, step,
}
use expense_saas.Client.SingleFlight.Unique.{IsUnderWay, run-one_under_way, run-same_answer}

-- Everything that a run of a call goes through.
run_client : Unit {0}
unfolding api_client on_reply on_unauthorized do_refresh refreshed_by retry final result_of
    handle_error_response headers_of retry_headers_of get_access_token get_refresh_token set_tokens
    clear_tokens insert erase lookup load message_of infer_code_from_status entry
    server_error_messages
run_client = tt

abbrev storage : Storage
storage = record {
  reads = true;
  writes = true;
  removes = true;
  items = ("auth.access_token", "a1") ∷ ("auth.refresh_token", "r1") ∷ [];
}

abbrev page : Page
page = record { store = load storage; location = none; log = [] }

abbrev me : Init
me = record { method = get; path = "/api/auth/me"; body = empty }

abbrev login : Init
login = record { method = post; path = login_path; body = json "{}" }

abbrev denied : Response
denied = record { status = 401; empty_content = false; payload = not_json }

abbrev granted : Response
granted = record { status = 200; empty_content = false; payload = auth_tokens "a2" "r2" }

abbrev profile : Response
profile = record { status = 200; empty_content = false; payload = other "ann" }

-- A server that asks for a refresh, grants it, and then answers.
abbrev renewing : List Request → Request → Reply
renewing [] r = answered denied
renewing (_ ∷ []) r = answered granted
renewing (_ ∷ _ ∷ _) r = answered profile

-- A server that always answers 401.
abbrev refusing : List Request → Request → Reply
refusing log r = answered denied

renewed : (api_client renewing me page).0 ≡ success (some (other "ann"))
unfolding run_client
renewed = refl

dropped : (api_client (λ _ _. rejected network) me page).0 ≡ thrown network
unfolding run_client
dropped = refl

api_client-session_example :
    KeepsSession refusing page
      (sent refusing (first_of refusing me page) page)
      (api_client refusing me page).1
api_client-session_example = api_client-session refusing me page

grant : Grants renewing (sent renewing (first_of renewing me page) page) "a2" "r2"
unfolding run_client
grant = record {
  old = "r1";
  held = refl;
  present = refl;
  response = granted;
  reply = refl;
  accepted = refl;
  payload = refl;
}

api_client-retried_example :
    let asked =
      sent renewing (refresh_request grant.old) (sent renewing (first_of renewing me page) page) in
    let (result, q) = api_client renewing me page in
    (result ≡ final renewing (renewing asked.log (retry_of renewing me "a2")))
    × (q.log ≡ asked.log ++ retry_of renewing me "a2" ∷ [])
    × (q.store ≡ set_tokens "a2" "r2" page.store)
    × (q.location ≡ page.location)
unfolding run_client
api_client-retried_example =
    api_client-retried renewing me page "a2" "r2" (refl, (denied, refl, refl)) grant refl

-- Caller 1 refreshes, callers 2 and 3 join, and caller 3 comes back after a second refresh began.
abbrev schedule : List Event
schedule =
    call 1 true
    ∷ call 2 true
    ∷ call 3 true
    ∷ answer 0 true
    ∷ continue 1
    ∷ call 1 true
    ∷ continue 2
    ∷ continue 3
    ∷ []

joined : (run schedule no_flights).stage 2 ≡ returned 0 true
unfolding run step no_flights
joined = refl

-- Two callers, and no answer yet.
abbrev unanswered : List Event
unanswered = call 2 true ∷ call 3 true ∷ []

first-IsUnderWay : IsUnderWay (run unanswered no_flights) 0
unfolding run step no_flights
first-IsUnderWay = (omega arith, refl)

run-one_under_way_example : ◌≡◌ {A = ℕ} 0 0
run-one_under_way_example = run-one_under_way unanswered 0 0 first-IsUnderWay first-IsUnderWay

run-same_answer_example : (true ≡ true) × ((run schedule no_flights).answers 0 ≡ some true)
unfolding run step no_flights
run-same_answer_example = run-same_answer schedule 2 3 0 true true refl refl
