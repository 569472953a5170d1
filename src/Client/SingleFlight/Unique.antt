-- ===== src/Client/SingleFlight/Unique.antt =====
-- api/client.ts: at most one refresh is under way, whatever the schedule.
use expense_saas.Prelude.{
  ℕ, none, some, Bool, List, [], ◌∷◌, ◌≡◌, ◌<◌, ◌≤◌, arith, refl, Bool-cases, inl, inr,
}
use expense_saas.Client.SingleFlight.{
  Stage, idle, owning, waiting, returned, Flights, no_flights, refresh_access_token, settle,
  resume_at, Event, call, answer, continue, step, run, is_suspended,
}

-- The invariant of the event loop.
pub record IsSingle (s : Flights) : Type 0 where
  -- a refresh that has not settled is the one that `refreshPromise` holds
  pub current : (k : ℕ) → k < s.started → s.answers k ≡ none → s.refresh_promise ≡ some k
  -- whoever created a promise and has not resumed finds it still there, and is alone
  pub owned : (i k : ℕ) → s.stage i ≡ owning k → s.refresh_promise ≡ some k
  pub alone : (i j k l : ℕ) → s.stage i ≡ owning k → s.stage j ≡ owning l → i ≡ j
  pub numbered : (k : ℕ) → s.started ≤ k → s.answers k ≡ none
  -- a call returns what the promise that it awaited settled with
  pub returns : (i k : ℕ) (b : Bool) → s.stage i ≡ returned k b → s.answers k ≡ some b

no_flights-IsSingle : IsSingle no_flights
unfolding no_flights
no_flights-IsSingle = grind arith

call-IsSingle :
    (i : ℕ) (t : Bool) (s : Flights) → IsSingle s → IsSingle (refresh_access_token i t s)
unfolding refresh_access_token
call-IsSingle i t s h = record {
  current = λ k lt e. ground (arith, h.current k, h.numbered s.started, h.numbered k);
  owned = λ j k e. ground (arith, h.owned j k);
  alone = λ j l k m e f. ground (arith, h.alone j l k m, h.owned j k, h.owned l m);
  numbered = λ k le. ground (arith, h.numbered k);
  returns = λ j k b e. ground (arith, h.returns j k b, h.numbered s.started);
}

settle-IsSingle : (k : ℕ) (b : Bool) (s : Flights) → IsSingle s → IsSingle (settle k b s)
unfolding settle
settle-IsSingle n b s h = record {
  current = λ k lt e. ground (arith, h.current k);
  owned = λ j k e. ground (arith, h.owned j k);
  alone = λ j l k m e f. ground (arith, h.alone j l k m);
  numbered = λ k le. ground (arith, h.numbered k);
  returns = λ j k c e. ground (arith, h.returns j k c, h.returns j n c);
}

resume_at-IsSingle :
    (i : ℕ) (st : Stage) (s : Flights) → s.stage i ≡ st → IsSingle s → IsSingle (resume_at i st s)
unfolding resume_at
resume_at-IsSingle i idle s e h = h
resume_at-IsSingle i (returned k b) s e h = h
resume_at-IsSingle i (owning n) s at h = record {
  current = λ k lt e. ground (arith, h.current k, h.owned i n, h.current n);
  owned = λ j k e. ground (arith, h.owned j k, h.alone i j n k);
  alone = λ j l k m e f. ground (arith, h.alone j l k m);
  numbered = λ k le. ground (arith, h.numbered k);
  returns = λ j k c e. ground (arith, h.returns j k c);
}
resume_at-IsSingle i (waiting n) s at h = record {
  current = λ k lt e. ground (arith, h.current k);
  owned = λ j k e. ground (arith, h.owned j k);
  alone = λ j l k m e f. ground (arith, h.alone j l k m);
  numbered = λ k le. ground (arith, h.numbered k);
  returns = λ j k c e. ground (arith, h.returns j k c);
}

step-IsSingle : (e : Event) (s : Flights) → IsSingle s → IsSingle (step e s)
unfolding step
step-IsSingle (call i t) s h = elim (Bool-cases (is_suspended (s.stage i))) [
  | inl busy ↦ rw busy h
  | inr free ↦ rw free (call-IsSingle i t s h)
]
step-IsSingle (answer k b) s h = settle-IsSingle k b s h
step-IsSingle (continue i) s h = resume_at-IsSingle i (s.stage i) s refl h

run-IsSingle : (es : List Event) (s : Flights) → IsSingle s → IsSingle (run es s)
unfolding run
run-IsSingle [] s h = h
run-IsSingle (e ∷ es) s h = run-IsSingle es (step e s) (step-IsSingle e s h)

-- The refresh request number `k` was started and has not been answered.
abbrev pub IsUnderWay : Flights → ℕ → Type 0
IsUnderWay s k = (k < s.started) × (s.answers k ≡ none)

-- However calls, answers and continuations interleave, at most one refresh is under way, so the
-- old refresh token is never sent by two requests at a time.
pub run-one_under_way :
    (es : List Event) (j k : ℕ)
    → let s = run es no_flights in IsUnderWay s j → IsUnderWay s k → j ≡ k
run-one_under_way es j k (sj, ej) (sk, ek) =
    let h = run-IsSingle es no_flights no_flights-IsSingle in
    ground (arith, h.current j sj ej, h.current k sk ek)

-- All callers that joined one refresh return its one answer, the creator's own included.
pub run-same_answer :
    (es : List Event) (i j k : ℕ) (b c : Bool)
    → let s = run es no_flights in
      s.stage i ≡ returned k b → s.stage j ≡ returned k c → (b ≡ c) × (s.answers k ≡ some b)
run-same_answer es i j k b c ei ej =
    let h = run-IsSingle es no_flights no_flights-IsSingle in
    ground (arith, h.returns i k b ei, h.returns j k c ej)
