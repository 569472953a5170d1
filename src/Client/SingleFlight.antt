-- ===== src/Client/SingleFlight.antt =====
-- api/client.ts: refreshAccessToken under concurrent callers. `refreshPromise` and the promises of
-- the doRefresh calls are the state; the event loop is a schedule of events.
pub mod Unique
use expense_saas.Prelude.{
  ℕ, suc, Option, none, some, Bool, true, false, List, [], ◌∷◌, ◌==◌, if◌then◌else◌, ltb, ◌&&◌,
}

-- Where a caller of refreshAccessToken stands: it has not called, it awaits the promise that it
-- created itself, it awaits another caller's, or its call has returned.
pub data Stage : Type 0 where
  idle : Stage
  owning : (flight : ℕ) → Stage
  waiting : (flight : ℕ) → Stage
  returned : (flight : ℕ) (refreshed : Bool) → Stage

-- The calls of doRefresh are numbered; `answers` holds the values of the settled promises.
pub record Flights : Type 0 where
  pub refresh_promise : Option ℕ
  pub started : ℕ
  pub answers : ℕ → Option Bool
  pub stage : ℕ → Stage

abbrev pub update {ℓ} : {A : Type ℓ} → (ℕ → A) → ℕ → A → ℕ → A
update f n a m = if m == n then a else f m

unfoldable pub no_flights : Flights
no_flights = record { refresh_promise = none; started = 0; answers = λ _. none; stage = λ _. idle }

-- A call up to its first await. Without a refresh token doRefresh settles at once with false.
refresh_access_token : (caller : ℕ) (has_token : Bool) → Flights → Flights
refresh_access_token i has_token s = elim s.refresh_promise [
  | some k ↦ record s { stage = update s.stage i (waiting k) }
  | none ↦ record s {
    refresh_promise = some s.started;
    started = suc s.started;
    answers = if has_token then s.answers else update s.answers s.started (some false);
    stage = update s.stage i (owning s.started);
  }
]

-- The refresh request number `k` is answered, or fails, and its promise settles, once.
settle : (k : ℕ) (refreshed : Bool) → Flights → Flights
settle k b s = elim (s.answers k) [
  | some _ ↦ s
  | none ↦ if ltb k s.started then record s { answers = update s.answers k (some b) } else s
]

-- The continuation behind the await: the creator of the promise runs `refreshPromise = null`.
resume_at : (caller : ℕ) → Stage → Flights → Flights
resume_at i (owning k) s = elim (s.answers k) [
  | none ↦ s
  | some b ↦ record s { refresh_promise = none; stage = update s.stage i (returned k b) }
]
resume_at i (waiting k) s = elim (s.answers k) [
  | none ↦ s
  | some b ↦ record s { stage = update s.stage i (returned k b) }
]
resume_at i _ s = s

resume : (caller : ℕ) → Flights → Flights
unfolding resume_at
resume i s = resume_at i (s.stage i) s

pub data Event : Type 0 where
  call : (caller : ℕ) (has_token : Bool) → Event
  answer : (flight : ℕ) (refreshed : Bool) → Event
  continue : (caller : ℕ) → Event

abbrev is_suspended : Stage → Bool
is_suspended (owning _) = true
is_suspended (waiting _) = true
is_suspended _ = false

-- A caller that awaits cannot call again; an event that cannot happen changes nothing.
unfoldable pub step : Event → Flights → Flights
unfolding refresh_access_token settle resume
step (call i has_token) s =
    if is_suspended (s.stage i) then s else refresh_access_token i has_token s
step (answer k b) s = settle k b s
step (continue i) s = resume i s

unfoldable pub run : List Event → Flights → Flights
run [] s = s
run (e ∷ es) s = run es (step e s)
