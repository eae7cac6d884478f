-- ===== src/Router/Execution/Probes.antt =====
-- What a failure that is not retryable does to a breaker that is being probed.
use model_gateway.Common.{
  ℕ, ◌+◌, ◌≤◌, ◌<◌, String_comparable, ◌≡◌, refl, ap, ◌++◌, ◌∙◌, true, false, List, [], ◌∷◌, none,
  some, arith, ltb, leb, lookup-insert_self,
}
use model_gateway.Core.Errors.{Error, Result, err, is_retryable}
use model_gateway.Core.Catalog.{Deployment}
use model_gateway.Router.Breaker.{Breaker, opened, half_open, allow}
use model_gateway.Router.Breaker.Cooldown.{asked, asked_probing}
use model_gateway.Router.Floats.{Floats}
use model_gateway.Router.Selection.{Candidate, Router}
use model_gateway.Router.Execution.{
  Turn, Maps, Progress, stops, interleaved, put_breaker, breaker_of, remaining, min_attempt_budget,
  outcome, admitted, turn, rounds, execute,
}

-- A breaker that has just let a probe through.
abbrev pub probing : Breaker → Breaker
probing b = record b { state = half_open; successes = 0; probe_in_flight = true }

allow-probing :
    (b : Breaker) (now : ℕ)
    → b.state ≡ opened
    → b.opened_at + b.cooldown ≤ now
    → allow b now ≡ (probing b, true)
unfolding allow
allow-probing b now e h = ground arith

module _ {F W R : Type 0} (fl : Floats F) (call : ℕ → W → Deployment → W × Result R)
    (meanwhile : ℕ → Maps F → Maps F) where
  -- The progress after a call that was rejected.
  abbrev rejected : Turn → Progress F W → Candidate F → W → Error → Progress F W
  rejected t p c w e = record p {
    world = w;
    attempts =
        p.attempts
        ++ record {
          deployment = c.deployment.id;
          latency = t.latency;
          error = some e;
          skipped = false;
        }
          ∷ [];
    last = some e;
  }

  outcome_rejected :
      (t : Turn) (p : Progress F W) (c : Candidate F) (w : W) (e : Error)
      → is_retryable (some e) ≡ false
      → outcome fl call meanwhile t p c (w, err e) ≡ stops (rejected t p c w e) (err e)
  unfolding outcome
  outcome_rejected t p c w e f = rw f refl

  -- What the call leaves of the router is what others made of it.
  abbrev called : Progress F W → Candidate F → Progress F W
  called p c = record p {
    router = interleaved (meanwhile 0) p.router;
    saw = p.saw ++ c.deployment.id ∷ [];
  }

  admitted_first :
      (t : Turn) (p : Progress F W) (c : Candidate F)
      → t.present ≡ true
      → admitted fl call meanwhile 0 t p c true
        ≡ outcome fl call meanwhile t (called p c) c (call 0 p.world c.deployment)
  unfolding admitted
  admitted_first t p c z = simp z refl

  -- A round that has an attempt left and time for it.
  abbrev pub Able : Router F → Turn → Type 0
  Able r t =
      (0 < r.max_attempts)
      × (min_attempt_budget ≤ remaining t.context t.deadline t.budgeting)
      × (t.present ≡ true)

  turn_first :
      (t : Turn) (p : Progress F W) (c : Candidate F) (b : Breaker)
      → Able p.router t
      → allow (breaker_of p.router c.deployment.id) t.allowing ≡ (b, true)
      → turn fl call meanwhile 0 t p c
        ≡ admitted fl call meanwhile 0 t
            (record p { router = put_breaker p.router c.deployment.id b })
            c
            true
  unfolding turn
  turn_first t p c b (room, budget, here) e =
      let left : leb p.router.max_attempts 0 ≡ false = ground arith in
      let time : ltb (remaining t.context t.deadline t.budgeting) min_attempt_budget ≡ false =
        ground arith in
      rw (left, time, e) refl

  rounds_stopped :
      (turns : ℕ → Turn) (p p' : Progress F W) (c : Candidate F) (cs : List (Candidate F))
      (result : Result (Deployment × R))
      → turn fl call meanwhile 0 (turns 0) p c ≡ stops p' result
      → rounds fl call meanwhile 0 turns p (c ∷ cs) ≡ (p', result)
  unfolding rounds
  rounds_stopped turns p p' c cs result e = rw (e, rounds) refl

  -- The defect: an open breaker whose cooldown has passed lets the first candidate's request through as
  -- a probe. Where the call fails in a way that is not retryable, and nobody else reports an outcome in
  -- the meantime, the breaker stays half-open with its probe in flight, and refuses all later requests,
  -- whenever they come.
  pub execute_strands_probe :
      (r : Router F) (w w' : W) (turns : ℕ → Turn) (c : Candidate F) (cs : List (Candidate F))
      (e : Error) (times : List ℕ)
      → Able r (turns 0)
      → (breaker_of r c.deployment.id).state ≡ opened
      → (breaker_of r c.deployment.id).opened_at + (breaker_of r c.deployment.id).cooldown
        ≤ (turns 0).allowing
      → call 0 w c.deployment ≡ (w', err e)
      → is_retryable (some e) ≡ false
      → ((m : Maps F) → meanwhile 0 m ≡ m)
      → let after = (execute fl call meanwhile r w turns (c ∷ cs)).0.router in
        asked (breaker_of after c.deployment.id) times ≡ (probing (breaker_of r c.deployment.id), 0)
  unfolding execute
  execute_strands_probe r w w' turns c cs e times able o k q f alone =
      let id = c.deployment.id in
      let start : Progress F W = record {
        router = r;
        world = w;
        attempts = [];
        saw = [];
        last = none;
      } in
      let tried : Progress F W = record start {
        router = put_breaker r id (probing (breaker_of r id));
      } in
      let stopped : turn fl call meanwhile 0 (turns 0) start c
          ≡ stops (rejected (turns 0) (called tried c) c w' e) (err e) =
        turn_first (turns 0) start c (probing (breaker_of r id)) able
          (allow-probing (breaker_of r id) (turns 0).allowing o k)
        ∙ admitted_first (turns 0) tried c able.2
        ∙ ap (λ a. outcome fl call meanwhile (turns 0) (called tried c) c a) q
        ∙ outcome_rejected (turns 0) (called tried c) c w' e f in
      rw (rounds_stopped turns start _ c cs _ stopped)
        (rw (alone, lookup-insert_self) (asked_probing (probing (breaker_of r id)) times refl refl))
