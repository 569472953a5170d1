-- ===== src/Store/Reload.antt =====
-- stores/auth.ts: what a reload finds after any sequence of writes.
use expense_saas.Prelude.{
  String, Option, none, some, false, List, [], ◌∷◌, str_eq, if◌then◌else◌, ◌≡◌, refl, arith, eq_iff,
  ◌∙◌, ap, ◌++◌,
}
use expense_saas.Store.{
  Storage, Store, lookup, insert, erase, load, get_access_token, get_refresh_token, Op, set_pair,
  clear, apply, run, IsUsable, key_access_token, key_refresh_token,
}

lookup-insert :
    (k j v : String) (items : List (String × String))
    → lookup j (insert k v items) ≡ (if str_eq k j then some v else lookup j items)
unfolding lookup insert
lookup-insert k j v [] = refl
lookup-insert k j v ((i, w) ∷ items) =
    ground (arith, eq_iff k j, eq_iff i k, eq_iff i j, lookup-insert k j v items)

lookup-erase :
    (k j : String) (items : List (String × String))
    → lookup j (erase k items) ≡ (if str_eq k j then none else lookup j items)
unfolding lookup erase
lookup-erase k j [] = ground arith
lookup-erase k j ((i, w) ∷ items) =
    ground (arith, eq_iff k j, eq_iff i k, eq_iff i j, lookup-erase k j items)

-- The variables in memory hold what the storage holds, and the storage can be used.
pub record IsMirrored (s : Store) : Type 0 where
  pub usable : IsUsable s.session
  pub access : lookup key_access_token s.session.items ≡ s.access_token
  pub refresh : lookup key_refresh_token s.session.items ≡ s.refresh_token

load-IsMirrored : (s : Storage) → IsUsable s → IsMirrored (load s)
unfolding load
load-IsMirrored s u = ground arith

apply-IsMirrored : (op : Op) (s : Store) → IsMirrored s → IsMirrored (apply op s)
unfolding apply
apply-IsMirrored (set_pair a r) s m =
    let items = s.session.items in
    let written = insert key_access_token a items in
    ground (
      arith,
      lookup-insert key_refresh_token key_access_token r written,
      lookup-insert key_access_token key_access_token a items,
      lookup-insert key_refresh_token key_refresh_token r written,
    )
apply-IsMirrored clear s m =
    let items = s.session.items in
    let left = erase key_access_token items in
    ground (
      arith,
      lookup-erase key_refresh_token key_access_token left,
      lookup-erase key_access_token key_access_token items,
      lookup-erase key_refresh_token key_refresh_token left,
    )

run-IsMirrored : (ops : List Op) (s : Store) → IsMirrored s → IsMirrored (run ops s)
unfolding run
run-IsMirrored [] s m = m
run-IsMirrored (op ∷ ops) s m = run-IsMirrored ops (apply op s) (apply-IsMirrored op s m)

load_of_IsMirrored : (s : Store) → IsMirrored s → load s.session ≡ s
unfolding load
load_of_IsMirrored s m = ground arith

-- Where sessionStorage lets every call through, a reload at any moment, after any sequence of
-- logins, refreshes and logouts since the page was opened, finds the tokens that were in memory.
pub load-run :
    (ops : List Op) (s : Storage) → IsUsable s → load (run ops (load s)).session ≡ run ops (load s)
load-run ops s u = load_of_IsMirrored _ (run-IsMirrored ops (load s) (load-IsMirrored s u))

-- What the getters answer after an operation, whatever was there before.
abbrev pub pair_of : Op → Option String × Option String
pair_of (set_pair a r) = (some a, some r)
pair_of clear = (none, none)

apply_blocked :
    (op : Op) (s : Store)
    → s.session.writes ≡ false
    → s.session.removes ≡ false
    → (apply op s).session ≡ s.session
unfolding apply
apply_blocked (set_pair a r) s w d = ground arith
apply_blocked clear s w d = ground arith

get_pair-apply :
    (op : Op) (s : Store)
    → (get_access_token (apply op s) ≡ (pair_of op).0)
      × (get_refresh_token (apply op s) ≡ (pair_of op).1)
unfolding apply get_access_token get_refresh_token
get_pair-apply (set_pair a r) s = (refl, refl)
get_pair-apply clear s = (refl, refl)

-- Where sessionStorage refuses writes and removals, the tokens live in memory alone: after any
-- operations the getters answer what the last one set or cleared, and the storage is untouched.
run-memory_only :
    (ops : List Op) (op : Op) (s : Store)
    → s.session.writes ≡ false
    → s.session.removes ≡ false
    → let t = run (ops ++ op ∷ []) s in
      (get_access_token t ≡ (pair_of op).0)
      × (get_refresh_token t ≡ (pair_of op).1)
      × (t.session ≡ s.session)
unfolding run
run-memory_only [] op s w d =
    let (access, refresh) = get_pair-apply op s in (access, refresh, apply_blocked op s w d)
run-memory_only (o ∷ ops) op s w d =
    let same = apply_blocked o s w d in
    let (access, refresh, kept) =
      run-memory_only ops op (apply o s) (ap (λ t. t.writes) same ∙ w)
        (ap (λ t. t.removes) same ∙ d) in
    (access, refresh, kept ∙ same)
