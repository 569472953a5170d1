-- ===== src/Auth/Session.antt =====
-- Signing in, being sent back, and signing out.
use expense_saas.Texts.{Chars, codes}
use expense_saas.Prelude.{
  String, none, some, Bool, List, [], ◌∷◌, ◌≡◌, refl, ◌++◌, ◌&&◌, ◌==◌, not, all, ap, ◌∙◌, true,
}
use expense_saas.Store.{get_access_token, get_refresh_token}
use expense_saas.Hooks.{QueryKey}
use expense_saas.Hooks.Changes.Mutations.{KeyFilter}
use expense_saas.Auth.{signed_in, Tab, private_route, go, login_ends, logout_ends, Failure, failed}

-- A part of an address up to its query, and one up to its hash.
abbrev pub is_pathname : Chars → Bool
is_pathname = all (λ c. not (c == b'?') && not (c == b'#'))

abbrev pub is_search : Chars → Bool
is_search [] = true
is_search (c ∷ s) = c == b'?' && all (λ d. not (d == b'#')) s

-- The router reads a pathname with its query, one behind the other, as these two.
abbrev pub Splits : (Chars → Chars × Chars) → Type 0
Splits parse_path =
    (pathname search : Chars)
    → is_pathname pathname ≡ true
    → is_search search ≡ true
    → parse_path (pathname ++ search) ≡ (pathname, search)

module _ (matches : KeyFilter → QueryKey → Bool) (parse_path : Chars → Chars × Chars) where
  -- Attempts to log in that fail.
  abbrev pub attempts : List Failure → Tab → Tab
  attempts [] t = t
  attempts (f ∷ fs) t = attempts fs (login_ends matches parse_path (failed f) t)

  attempts-location :
      (fs : List Failure) (t : Tab)
      → ((attempts fs t).location ≡ t.location) × ((attempts fs t).store ≡ t.store)
  unfolding login_ends
  attempts-location [] t = (refl, refl)
  attempts-location (f ∷ fs) t = attempts-location fs (login_ends matches parse_path (failed f) t)

  guarded-attempts :
      (fs : List Failure) (t : Tab)
      → get_access_token t.store ≡ none
      → (attempts fs (private_route t)).location ≡ record {
        pathname = codes "/login";
        search = [];
        from = some (t.location.pathname ++ t.location.search);
      }
  unfolding private_route
  guarded-attempts fs t h = (attempts-location fs (private_route t)).0 ∙ rw h refl

  back :
      (u : Tab) (pathname search : Chars) (access refresh : String)
      → Splits parse_path
      → is_pathname pathname ≡ true
      → is_search search ≡ true
      → u.location.from ≡ some (pathname ++ search)
      → let b = login_ends matches parse_path (signed_in access refresh) u in
        (b.location ≡ record { pathname = pathname; search = search; from = none })
        × (private_route b ≡ b)
        × (get_refresh_token b.store ≡ some refresh)
  unfolding private_route login_ends get_refresh_token
  back u pathname search access refresh splits p s h =
      (rw (h, splits pathname search p s) refl, refl, refl)

  -- A visitor without a session who opens a page of the application is sent to the login page, and
  -- after any number of attempts that fail the login leads back to the same pathname and the same
  -- query, where the guard lets the visitor stay. The router is taken to read a pathname with its
  -- query behind it as these two.
  pub login_ends-returns :
      (fs : List Failure) (t : Tab) (access refresh : String)
      → Splits parse_path
      → get_access_token t.store ≡ none
      → is_pathname t.location.pathname ≡ true
      → is_search t.location.search ≡ true
      → let tried = attempts fs (private_route t) in
        let back = login_ends matches parse_path (signed_in access refresh) tried in
        (tried.location.pathname ≡ codes "/login")
        × (back.location.pathname ≡ t.location.pathname)
        × (back.location.search ≡ t.location.search)
        × (private_route back ≡ back)
        × (get_refresh_token back.store ≡ some refresh)
  login_ends-returns fs t access refresh splits h p s =
      let tried = attempts fs (private_route t) in
      let at = guarded-attempts fs t h in
      let (there, stays, token) =
        back tried t.location.pathname t.location.search access refresh splits p s
          (ap (λ l. l.from) at) in
      (ap (λ l. l.pathname) at, ap (λ l. l.pathname) there, ap (λ l. l.search) there, stays, token)

-- After a logout, whether or not the server took it, no answer of the user is left, and every page
-- of the application leads to the login page.
logout_ends-private_route :
    (t : Tab) (path : String)
    → let out = logout_ends t in
      (out.cache ≡ [])
      × (get_refresh_token out.store ≡ none)
      × ((private_route (record out { location = go path })).location
          ≡ record { pathname = codes "/login"; search = []; from = some (codes path ++ []) })
unfolding logout_ends private_route get_refresh_token
logout_ends-private_route t path = (refl, refl, refl)
