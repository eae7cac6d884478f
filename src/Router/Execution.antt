-- ===== src/Router/Execution.antt =====
-- dataplane/internal/router/router.go: Execute, which tries the candidates in order. The call of the
-- provider is a parameter: it answers and changes a world of its own. What other requests do to the
-- router's maps during the i-th call is `meanwhile i`, and a `Turn` holds what one round reads.
pub mod Attempts
pub mod Probes
pub mod Worlds
pub mod Tests
use model_gateway.Common.{
  ℕ, suc, ◌-◌, ◌≡◌, refl, ◌⊎◌, inl, inr, String, String_comparable, Bool, true, false, not, ◌&&◌,
  ◌||◌, List, [], ◌∷◌, ◌++◌, Option, none, some, eqb, ltb, leb, if◌then◌else◌, Map, lookup, insert,
}
use model_gateway.Core.Errors.{
  Error, Result, ok, err, internal, no_candidates, new, newf, text, is_retryable,
}
use model_gateway.Core.Catalog.{Deployment}
use model_gateway.Router.Breaker.{Breaker, allow, succeed, fail}
use model_gateway.Router.Floats.{Floats}
use model_gateway.Router.Health.{Health, observe}
use model_gateway.Router.Selection.{Candidate, Router, health_for}

-- 250 milliseconds.
abbrev pub min_attempt_budget : ℕ
min_attempt_budget = 250_000_000

-- One hour.
abbrev pub unbounded_budget : ℕ
unbounded_budget = 3_600_000_000_000

abbrev pub default_max_attempts : ℕ
default_max_attempts = 3

-- The maps of a router, which requests share.
abbrev pub Maps : Type 0 → Type 0
Maps F = Map String Breaker × Map String (Health F)

-- The sooner of the context's deadline, if it has one, and the request's, where 0 is none.
abbrev sooner : Option ℕ → ℕ → ℕ
sooner none deadline = deadline
sooner (some context) deadline =
    if eqb deadline 0 || ltb context deadline then context else deadline

-- Router.remaining; a deadline that has passed leaves 0.
unfoldable pub remaining : Option ℕ → ℕ → ℕ → ℕ
remaining context deadline now =
    let last = sooner context deadline in if eqb last 0 then unbounded_budget else last - now

pub record Attempt : Type 0 where
  pub deployment : String
  pub latency : ℕ
  pub error : Option Error
  pub skipped : Bool

-- What one round of the loop reads: the clock, at each place; whether the wait before a retry ends
-- with the context alive; whether the registry has the provider; and how long the call took.
pub record Turn : Type 0 where
  pub deadline : ℕ
  pub context : Option ℕ
  pub budgeting : ℕ
  pub allowing : ℕ
  pub alive : Bool
  pub present : Bool
  pub latency : ℕ
  pub failing : ℕ
  pub observing : ℕ
  pub updating : ℕ

-- What the loop has done so far; `saw` lists the traffic that the observer is told of.
pub record Progress (F W : Type 0) : Type 0 where
  pub router : Router F
  pub world : W
  pub attempts : List Attempt
  pub saw : List String
  pub last : Option Error

pub data Step (F W R : Type 0) : Type 0 where
  stops : Progress F W → Result (Deployment × R) → Step F W R
  continues : Progress F W → Step F W R

pub Step-cases :
    {F W R : Type 0} (s : Step F W R)
    → ((p : Progress F W) × (result : Result (Deployment × R)) × (s ≡ stops p result))
      ⊎ ((p : Progress F W) × (s ≡ continues p))
Step-cases (stops p result) = inl (p, result, refl)
Step-cases (continues p) = inr (p, refl)

-- wait: no backoff means no wait.
abbrev pub waits : ℕ → Bool → Bool
waits backoff alive = if eqb backoff 0 then true else alive

abbrev pub put_breaker : {F : Type 0} → Router F → String → Breaker → Router F
put_breaker r id b = record r { breakers = insert id b r.breakers }

abbrev pub breaker_or : Breaker → Option Breaker → Breaker
breaker_or fresh none = fresh
breaker_or fresh (some b) = b

-- What others did to the maps.
abbrev pub interleaved : {F : Type 0} → (Maps F → Maps F) → Router F → Router F
interleaved change r =
    let (breakers, health) = change (r.breakers, r.health) in
    record r { breakers = breakers; health = health }

-- breakerFor; the map gets the new one, as every caller here writes the breaker back.
abbrev pub breaker_of : {F : Type 0} → Router F → String → Breaker
breaker_of r id = breaker_or r.fresh_breaker (lookup id r.breakers)

module _ {F W R : Type 0} (fl : Floats F) (call : ℕ → W → Deployment → W × Result R)
    (meanwhile : ℕ → Maps F → Maps F) where
  -- The end of Execute.
  unfoldable pub give_up : Option Error → Result (Deployment × R)
  give_up none =
      err (
        new no_candidates "every candidate deployment is unavailable or the deadline was exhausted")
  give_up (some e) = err e

  -- healthFor(id).Observe
  unfoldable pub observe_in : Router F → String → Bool → Turn → Router F
  observe_in r id failed t =
      let (r', h) = health_for fl r id in
      record r' {
        health = insert id (observe fl h failed t.latency t.observing t.updating) r'.health;
      }

  -- From the outcome of the call on.
  unfoldable pub outcome : Turn → Progress F W → Candidate F → W × Result R → Step F W R
  outcome t p c (w, ok response) =
      let id = c.deployment.id in
      let b = succeed (breaker_of p.router id) in
      stops
        (record p {
          router = observe_in (put_breaker p.router id b) id false t;
          world = w;
          attempts =
              p.attempts
              ++ record { deployment = id; latency = t.latency; error = none; skipped = false }
                ∷ [];
        })
        (ok (c.deployment, response))
  outcome t p c (w, err e) =
      let id = c.deployment.id in
      let tried = record p {
        world = w;
        attempts =
            p.attempts
            ++ record { deployment = id; latency = t.latency; error = some e; skipped = false }
              ∷ [];
        last = some e;
      } in
      if is_retryable (some e)
      then continues (record tried {
        router =
            observe_in (put_breaker p.router id (fail (breaker_of p.router id) t.failing)) id true
              t;
      })
      else stops tried (err e)

  -- From the answer of the breaker on.
  unfoldable pub admitted : ℕ → Turn → Progress F W → Candidate F → Bool → Step F W R
  admitted i t p c allowed =
      let id = c.deployment.id in
      let (w, answer) = call i p.world c.deployment in
      if not allowed
      then continues (record p {
        attempts =
            p.attempts
            ++ record { deployment = id; latency = 0; error = none; skipped = true } ∷ [];
      })
      else if ltb 0 i && not (waits p.router.backoff t.alive)
      then stops p (give_up p.last)
      else if not t.present
      then continues (record p {
        last = some (
            newf internal "provider %q vanished between selection and execution"
              (text c.deployment.provider ∷ []));
      })
      else outcome t
          (record p { router = interleaved (meanwhile i) p.router; saw = p.saw ++ id ∷ [] }) c
          (w, answer)

  -- The body of the loop.
  unfoldable pub turn : ℕ → Turn → Progress F W → Candidate F → Step F W R
  turn i t p c =
      let id = c.deployment.id in
      let (b, allowed) = allow (breaker_of p.router id) t.allowing in
      if leb p.router.max_attempts i
      then stops p (give_up p.last)
      else if ltb (remaining t.context t.deadline t.budgeting) min_attempt_budget
      then stops p (give_up p.last)
      else admitted i t (record p { router = put_breaker p.router id b }) c allowed

  -- The loop from its i-th round on.
  unfoldable pub rounds :
      ℕ → (ℕ → Turn) → Progress F W → List (Candidate F) → Progress F W × Result (Deployment × R)
  rounds i turns p [] = (p, give_up p.last)
  rounds i turns p (c ∷ cs) = elim (turn i (turns i) p c) [
    | stops p' result ↦ (p', result)
    | continues p' ↦ rounds (suc i) turns p' cs
  ]

  -- Execute
  unfoldable pub execute :
      Router F → W → (ℕ → Turn) → List (Candidate F) → Progress F W × Result (Deployment × R)
  execute r w turns cs =
      rounds 0 turns (record { router = r; world = w; attempts = []; saw = []; last = none }) cs
