-- ===== src/Store.antt =====
-- frontend/src/stores/auth.ts: the token pair in memory, mirrored in the browser's sessionStorage.
pub mod Reload
mod Tests
use expense_saas.Prelude.{
  String, Option, none, some, Bool, List, [], ◌∷◌, str_eq, if◌then◌else◌, ◌≡◌, true,
}

-- sessionStorage: its items, and whether each kind of call goes through or throws.
pub record Storage : Type 0 where
  pub reads : Bool
  pub writes : Bool
  pub removes : Bool
  pub items : List (String × String)

unfoldable pub lookup : String → List (String × String) → Option String
lookup key [] = none
lookup key ((k, v) ∷ rest) = if str_eq k key then some v else lookup key rest

unfoldable pub insert : String → String → List (String × String) → List (String × String)
insert key value [] = (key, value) ∷ []
insert key value ((k, v) ∷ rest) =
    if str_eq k key then (key, value) ∷ rest else (k, v) ∷ insert key value rest

unfoldable pub erase : String → List (String × String) → List (String × String)
erase key [] = []
erase key ((k, v) ∷ rest) =
    let kept = erase key rest in if str_eq k key then kept else (k, v) ∷ kept

abbrev pub key_access_token : String
key_access_token = "auth.access_token"

abbrev pub key_refresh_token : String
key_refresh_token = "auth.refresh_token"

-- A call that throws is caught: a read answers null, a write or a removal does nothing.
safe_get_item : String → Storage → Option String
safe_get_item key s = if s.reads then lookup key s.items else none

safe_set_item : String → String → Storage → Storage
safe_set_item key value s = if s.writes then record s { items = insert key value s.items } else s

safe_remove_item : String → Storage → Storage
safe_remove_item key s = if s.removes then record s { items = erase key s.items } else s

-- The module's variables, with the storage that they mirror.
pub record Store : Type 0 where
  pub access_token : Option String
  pub refresh_token : Option String
  pub session : Storage

-- Evaluating the module: what a page load or F5 does.
unfoldable pub load : Storage → Store
unfolding safe_get_item
load s = record {
  access_token = safe_get_item key_access_token s;
  refresh_token = safe_get_item key_refresh_token s;
  session = s;
}

unfoldable pub get_access_token : Store → Option String
get_access_token s = s.access_token

unfoldable pub get_refresh_token : Store → Option String
get_refresh_token s = s.refresh_token

unfoldable pub set_tokens : String → String → Store → Store
unfolding safe_set_item
set_tokens access refresh s = record {
  access_token = some access;
  refresh_token = some refresh;
  session =
      safe_set_item key_refresh_token refresh (safe_set_item key_access_token access s.session);
}

unfoldable pub clear_tokens : Store → Store
unfolding safe_remove_item
clear_tokens s = record {
  access_token = none;
  refresh_token = none;
  session = safe_remove_item key_refresh_token (safe_remove_item key_access_token s.session);
}

-- What the rest of the program does with the store, in any order.
pub data Op : Type 0 where
  set_pair : String → String → Op
  clear : Op

pub apply : Op → Store → Store
unfolding set_tokens clear_tokens
apply (set_pair access refresh) s = set_tokens access refresh s
apply clear s = clear_tokens s

pub run : List Op → Store → Store
unfolding apply
run [] s = s
run (op ∷ ops) s = run ops (apply op s)

-- The storage lets every call through.
abbrev pub IsUsable : Storage → Type 0
IsUsable s = (s.reads ≡ true) × (s.writes ≡ true) × (s.removes ≡ true)
