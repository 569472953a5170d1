-- ===== src/Client/Trace.antt =====
-- api/client.ts: the requests that one call makes.
use expense_saas.Prelude.{
  String, Option, true, List, [], ◌∷◌, length, ◌+◌, ◌≤◌, ◌≡◌, inl, inr, refl, arith, length-append,
  ap, Option-cases,
}
use expense_saas.Store.{get_access_token, get_refresh_token}
use expense_saas.Client.{
  Request, Response, Reply, answered, rejected, Page, Init, request_of, headers_of, refresh_request,
  sent, do_refresh, refreshed_by, api_client, is_auth_endpoint, retry, on_unauthorized, on_reply,
}

module _ (fetch : List Request → Request → Reply) where
  length-sent : (r : Request) (p : Page) → length (sent fetch r p).log ≡ length p.log + 1
  length-sent r p = length-append p.log (r ∷ [])

  refreshed_by-log : (r : Reply) (p : Page) → (refreshed_by fetch r p).1.log ≡ p.log
  unfolding refreshed_by
  refreshed_by-log (rejected f) p = refl
  refreshed_by-log (answered r) p = ground arith

  do_refresh-log :
      (p : Page)
      → let q = (do_refresh fetch p).1 in
        (length p.log ≤ length q.log) × (length q.log ≤ length p.log + 1)
  unfolding do_refresh get_refresh_token
  do_refresh-log p = elim (Option-cases (get_refresh_token p.store)) [
    | inl missing ↦ rw missing (omega arith)
    | inr (token, found) ↦
        let r = refresh_request token in
        let q = sent fetch r p in
        rw found (ground (arith, length-sent r p, ap length (refreshed_by-log (fetch p.log r) q)))
  ]

  retry-log :
      (init : Init) (old : Option String) (p : Page)
      → length (retry fetch init old p).1.log ≡ length p.log + 1
  unfolding retry
  retry-log init old p = length-sent _ p

  on_unauthorized-log :
      (init : Init) (old : Option String) (r : Response) (p : Page)
      → let q = (on_unauthorized fetch init old r p).1 in
        (length p.log ≤ length q.log)
        × (length q.log ≤ length p.log + 2)
        × (is_auth_endpoint init.path ≡ true → length q.log ≡ length p.log)
  unfolding on_unauthorized
  on_unauthorized-log init old r p =
      ground (arith, do_refresh-log p, retry-log init old (do_refresh fetch p).1)

  on_reply-log :
      (init : Init) (old : Option String) (r : Reply) (p : Page)
      → let q = (on_reply fetch init old r p).1 in
        (length p.log ≤ length q.log)
        × (length q.log ≤ length p.log + 2)
        × (is_auth_endpoint init.path ≡ true → length q.log ≡ length p.log)
  unfolding on_reply
  on_reply-log init old (rejected f) p = omega arith
  on_reply-log init old (answered r) p = ground (arith, on_unauthorized-log init old r p)

  -- One call makes at least one request and at most three, the refresh and the retry included,
  -- however the network answers; on the login and refresh endpoints it makes exactly one.
  api_client-log :
      (init : Init) (p : Page)
      → let q = (api_client fetch init p).1 in
        (length p.log + 1 ≤ length q.log)
        × (length q.log ≤ length p.log + 3)
        × (is_auth_endpoint init.path ≡ true → length q.log ≡ length p.log + 1)
  unfolding api_client
  api_client-log init p =
      let token = get_access_token p.store in
      let request = request_of init (headers_of init token) in
      ground (
        arith,
        length-sent request p,
        on_reply-log init token (fetch p.log request) (sent fetch request p),
      )
