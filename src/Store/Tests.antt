-- ===== src/Store/Tests.antt =====
-- The token store at concrete contents.
use expense_saas.Prelude.{none, some, true, false, [], ◌∷◌, ◌≡◌, refl}
use expense_saas.Store.{Storage, lookup, insert, erase, load, set_tokens, set_pair, clear, run}
use expense_saas.Store.Reload.{load-run}

abbrev fresh : Storage
fresh = record { reads = true; writes = true; removes = true; items = ("theme", "dark") ∷ [] }

abbrev blocked : Storage
blocked = record { reads = false; writes = false; removes = false; items = [] }

survives_f5 : (load (set_tokens "a1" "r1" (load fresh)).session).refresh_token ≡ some "r1"
unfolding load set_tokens lookup insert
survives_f5 = refl

logout_survives :
    (load (run (set_pair "a" "r" ∷ clear ∷ []) (load fresh)).session).access_token ≡ none
unfolding load run lookup insert erase
logout_survives = refl

load-run_example :
    let s = run (set_pair "a1" "r1" ∷ clear ∷ set_pair "a2" "r2" ∷ []) (load fresh) in
    load s.session ≡ s
load-run_example =
    load-run (set_pair "a1" "r1" ∷ clear ∷ set_pair "a2" "r2" ∷ []) fresh (refl, refl, refl)
