-- ===== src/Client/Session.antt =====
-- api/client.ts: what a call does to the session, and what the caller is told.
use expense_saas.Prelude.{
  String, Option, none, some, true, false, List, [], ◌∷◌, ◌++◌, ◌==◌, truthy, ◌≡◌, ◌⊎◌, inl, inr,
  refl, arith, Bool-cases, Option-cases,
}
use expense_saas.Store.{get_access_token, get_refresh_token, set_tokens, clear_tokens}
use expense_saas.Client.{
  Request, Response, Reply, answered, rejected, Page, Init, request_of, headers_of,
  retry_headers_of, refresh_request, sent, do_refresh, refreshed_by, api_client, is_auth_endpoint,
  is_ok, failed, auth_tokens, not_json, api_error, other, final, retry, on_unauthorized, on_reply,
  unauthorized, Payload, bearer, content_type, result_of, sign_out,
}

module _ (fetch : List Request → Request → Reply) where
  -- The first request of a call.
  abbrev pub first_of : Init → Page → Request
  first_of init p = request_of init (headers_of init (get_access_token p.store))

  -- The server grants a new pair to the refresh that follows the requests in the log.
  pub record Grants (p : Page) (access refresh : String) : Type 0 where
    pub old : String
    pub held : get_refresh_token p.store ≡ some old
    pub present : truthy old ≡ true
    pub response : Response
    pub reply : fetch p.log (refresh_request old) ≡ answered response
    pub accepted : is_ok response ≡ true
    pub payload : response.payload ≡ auth_tokens access refresh

  -- The session is over: no token is left, and the browser is sent to the login page.
  abbrev pub IsSignedOut : Page → Type 0
  IsSignedOut p =
      (get_access_token p.store ≡ none)
      × (get_refresh_token p.store ≡ none)
      × (p.location ≡ some "/login")

  -- The session that follows a grant: the new pair, and no change of page.
  pub record IsRefreshed (p q : Page) : Type 0 where
    pub access : String
    pub refresh : String
    pub granted : Grants p access refresh
    pub store : q.store ≡ set_tokens access refresh p.store
    pub location : q.location ≡ p.location

  -- What reading the answer to a refresh comes to.
  record Accepts (r : Reply) (q : Page) : Type 0 where
    access : String
    refresh : String
    response : Response
    reply : r ≡ answered response
    accepted : is_ok response ≡ true
    payload : response.payload ≡ auth_tokens access refresh
    result : refreshed_by fetch r q ≡ (true, record q { store = set_tokens access refresh q.store })

  Accepts-payload :
      (r : Response) (q : Page) (v : Payload)
      → is_ok r ≡ true
      → r.payload ≡ v
      → Accepts (answered r) q ⊎ (refreshed_by fetch (answered r) q ≡ sign_out q)
  unfolding refreshed_by
  Accepts-payload r q (auth_tokens access refresh) h e = inl (record {
    access = access;
    refresh = refresh;
    response = r;
    reply = refl;
    accepted = h;
    payload = e;
    result = ground arith;
  })
  Accepts-payload r q not_json h e = inr (ground arith)
  Accepts-payload r q (api_error c m d) h e = inr (ground arith)
  Accepts-payload r q (other v) h e = inr (ground arith)

  refreshed_by-cases : (r : Reply) (q : Page) → Accepts r q ⊎ (refreshed_by fetch r q ≡ sign_out q)
  unfolding refreshed_by
  refreshed_by-cases (rejected f) q = inr refl
  refreshed_by-cases (answered r) q = elim (Bool-cases (is_ok r)) [
    | inl h ↦ Accepts-payload r q r.payload h refl
    | inr h ↦ inr (rw h)
  ]

  Refreshed : Page → Type 0
  Refreshed p =
      let (done, q) = do_refresh fetch p in
      ((done ≡ true) × IsRefreshed p q) ⊎ ((done ≡ false) × IsSignedOut q)

  do_refresh-cases : (p : Page) → Refreshed p
  unfolding do_refresh get_refresh_token get_access_token clear_tokens Refreshed
  do_refresh-cases p = elim (Option-cases p.store.refresh_token) [
    | inl missing ↦ inr (ground arith)
    | inr (old, held) ↦ elim (Bool-cases (truthy old)) [
      | inr blank ↦ inr (ground arith)
      | inl present ↦
          let r = refresh_request old in
          elim (refreshed_by-cases (fetch p.log r) (sent fetch r p)) [
            | inr out ↦ inr (ground arith)
            | inl a ↦ inl (
              ground arith,
              record {
                access = a.access;
                refresh = a.refresh;
                granted = record {
                  old = old;
                  held = held;
                  present = present;
                  response = a.response;
                  reply = a.reply;
                  accepted = a.accepted;
                  payload = a.payload;
                };
                store = ground arith;
                location = ground arith;
              },
            )
          ]
    ]
  ]

  -- The first answer was a 401, and not on the login or refresh endpoint.
  abbrev pub IsChallenged : Init → Page → Type 0
  IsChallenged init p =
      (is_auth_endpoint init.path ≡ false)
      × ((r : Response) × (fetch p.log (first_of init p) ≡ answered r) × (r.status ≡ 401))

  -- What a call may do to the session of the page.
  abbrev pub KeepsSession : Page → Page → Page → Type 0
  KeepsSession p asked q =
      ((q.store ≡ p.store) × (q.location ≡ p.location)) ⊎ IsSignedOut q ⊎ IsRefreshed asked q

  on_unauthorized-session :
      (init : Init) (old : Option String) (r : Response) (p : Page)
      → KeepsSession p p (on_unauthorized fetch init old r p).1
  unfolding on_unauthorized retry Refreshed
  on_unauthorized-session init old r p = elim (Bool-cases (is_auth_endpoint init.path)) [
    | inl auth ↦ inl (ground arith)
    | inr open_ ↦ elim (do_refresh-cases p) [
      | inl (done, s) ↦ inr (
          inr (record {
            access = s.access;
            refresh = s.refresh;
            granted = s.granted;
            store = ground (arith, s.store);
            location = ground (arith, s.location);
          }))
      | inr (failed_, out) ↦ inr (inl (ground arith))
    ]
  ]

  -- Over a whole call the tokens and the page stay as they are, or the user is signed out: both
  -- tokens cleared and the browser sent to /login; or the tokens are the new pair that the server
  -- granted to the refresh of this call, and the page stays.
  pub api_client-session :
      (init : Init) (p : Page)
      → KeepsSession p (sent fetch (first_of init p) p) (api_client fetch init p).1
  unfolding api_client on_reply
  api_client-session init p = go (fetch p.log (first_of init p)) refl
    where
      go :
          (r : Reply)
          → fetch p.log (first_of init p) ≡ r
          → KeepsSession p
              (sent fetch (first_of init p) p)
              (on_reply fetch init
                (get_access_token p.store)
                (fetch p.log (first_of init p))
                (sent fetch (first_of init p) p)).1
      go (rejected f) e = inl (rw (e, on_reply) (refl, refl))
      go (answered r) e = elim (Bool-cases (r.status == 401)) [
        | inl challenged ↦
            rw (e, on_reply)
              (rw challenged (
                on_unauthorized-session init (get_access_token p.store) r
                  (sent fetch (first_of init p) p)))
        | inr fine ↦ inl (rw (e, on_reply) (rw fine (refl, refl)))
      ]

  -- A challenged call whose refresh the server does not grant signs the user out and fails with
  -- status 401 and code UNAUTHORIZED, with no second attempt.
  api_client-refused :
      (init : Init) (p : Page)
      → IsChallenged init p
      → ((access refresh : String) → ¬ Grants (sent fetch (first_of init p) p) access refresh)
      → let (result, q) = api_client fetch init p in (result ≡ failed unauthorized) × IsSignedOut q
  unfolding api_client on_reply on_unauthorized Refreshed
  api_client-refused init p (open_, (r, e, s)) never =
      elim (do_refresh-cases (sent fetch (first_of init p) p)) [
        | inl (done, t) ↦ absurd (never t.access t.refresh t.granted)
        | inr (fails, out) ↦ ground arith
      ]

  -- The retry of a call under a new token: its request, and what the caller gets from the answer.
  abbrev pub retry_of : Init → String → Request
  retry_of init access = request_of init (content_type init.body ++ bearer access ∷ [])

  do_refresh_of_Grants :
      (p : Page) (access refresh : String) (g : Grants p access refresh)
      → do_refresh fetch p ≡ (
        true,
        record (sent fetch (refresh_request g.old) p) { store = set_tokens access refresh p.store },
      )
  unfolding do_refresh get_refresh_token refreshed_by
  do_refresh_of_Grants p access refresh g = ground arith

  -- A challenged call whose refresh is granted is tried once more, under the new access token: the
  -- caller gets what that second answer says, the store holds the new pair, and the page stays.
  pub api_client-retried :
      (init : Init) (p : Page) (access refresh : String)
      → IsChallenged init p
      → (g : Grants (sent fetch (first_of init p) p) access refresh) → truthy access ≡ true
      → let asked = sent fetch (refresh_request g.old) (sent fetch (first_of init p) p) in
        let (result, q) = api_client fetch init p in
        (result ≡ final fetch (fetch asked.log (retry_of init access)))
        × (q.log ≡ asked.log ++ retry_of init access ∷ [])
        × (q.store ≡ set_tokens access refresh p.store)
        × (q.location ≡ p.location)
  unfolding api_client on_reply on_unauthorized retry retry_headers_of get_access_token set_tokens
  api_client-retried init p access refresh (open_, (r, e, s)) g present =
      let done = do_refresh_of_Grants (sent fetch (first_of init p) p) access refresh g in
      ground arith

  -- A call of the login or refresh endpoint hands its one answer, a 401 included, to the caller as
  -- it is, and leaves the tokens and the page alone.
  api_client-auth_endpoint :
      (init : Init) (p : Page)
      → is_auth_endpoint init.path ≡ true
      → api_client fetch init p
        ≡ (final fetch (fetch p.log (first_of init p)), sent fetch (first_of init p) p)
  unfolding api_client on_reply on_unauthorized final result_of
  api_client-auth_endpoint init p auth = go (fetch p.log (first_of init p))
    where
      go :
          (r : Reply)
          → on_reply fetch init (get_access_token p.store) r (sent fetch (first_of init p) p)
            ≡ (final fetch r, sent fetch (first_of init p) p)
      go (rejected f) = refl
      go (answered r) = ground arith
