-- ===== src/Router/Execution/Worlds.antt =====
-- What holds of the world of the calls after Execute.
use model_gateway.Common.{
  ℕ, suc, subst, inl, inr, Bool, true, false, not, ◌&&◌, List, [], ◌∷◌, some, All, ltb, leb,
  Bool-cases,
}
use model_gateway.Core.Errors.{Result, ok, err, is_retryable}
use model_gateway.Core.Catalog.{Deployment}
use model_gateway.Router.Breaker.{allow}
use model_gateway.Router.Floats.{Floats}
use model_gateway.Router.Selection.{Candidate, Router}
use model_gateway.Router.Execution.{
  Turn, Maps, Progress, Step, Step-cases, stops, continues, waits, put_breaker, breaker_of,
  remaining, min_attempt_budget, outcome, admitted, turn, rounds, execute,
}

module _ {F W R : Type 0} (fl : Floats F) (call : ℕ → W → Deployment → W × Result R)
    (meanwhile : ℕ → Maps F → Maps F) (P : W → Type 0) (Q : Deployment → Type 0)
    (keeps : (i : ℕ) (w : W) (d : Deployment) → Q d → P w → P (call i w d).0) where
  abbrev After : Step F W R → Type 0
  After (stops p result) = P p.world
  After (continues p) = P p.world

  outcome-After :
      (t : Turn) (p : Progress F W) (c : Candidate F) (answer : W × Result R)
      → P answer.0
      → After (outcome fl call meanwhile t p c answer)
  unfolding outcome
  outcome-After t p c (w, ok response) h = h
  outcome-After t p c (w, err e) h = elim (Bool-cases (is_retryable (some e))) [
    | inl q ↦ rw q h
    | inr q ↦ rw q h
  ]

  admitted-After :
      (i : ℕ) (t : Turn) (p : Progress F W) (c : Candidate F) (allowed : Bool)
      → Q c.deployment
      → P p.world
      → After (admitted fl call meanwhile i t p c allowed)
  unfolding admitted
  admitted-After i t p c false q h = h
  admitted-After i t p c true q h =
      elim (Bool-cases (ltb 0 i && not (waits p.router.backoff t.alive))) [
        | inl y ↦ rw y h
        | inr y ↦ elim (Bool-cases t.present) [
          | inr z ↦ rw (y, z) h
          | inl z ↦ rw y (
              simp z (
                outcome-After t _ c (call i p.world c.deployment)
                  (keeps i p.world c.deployment q h)))
        ]
      ]

  turn-After :
      (i : ℕ) (t : Turn) (p : Progress F W) (c : Candidate F)
      → Q c.deployment
      → P p.world
      → After (turn fl call meanwhile i t p c)
  unfolding turn
  turn-After i t p c q h = elim (Bool-cases (leb p.router.max_attempts i)) [
    | inl y ↦ rw y h
    | inr y ↦
        elim (Bool-cases (ltb (remaining t.context t.deadline t.budgeting) min_attempt_budget)) [
          | inl z ↦ rw (y, z) h
          | inr z ↦
              let (b, allowed) = allow (breaker_of p.router c.deployment.id) t.allowing in
              rw (y, z)
                (admitted-After i t (record p { router = put_breaker p.router c.deployment.id b }) c
                  allowed q h)
        ]
  ]

  rounds-keep :
      (i : ℕ) (turns : ℕ → Turn) (p : Progress F W) (cs : List (Candidate F))
      → All (λ c. Q c.deployment) cs
      → P p.world
      → P (rounds fl call meanwhile i turns p cs).0.world
  unfolding rounds
  rounds-keep i turns p [] q h = h
  rounds-keep i turns p (c ∷ cs) q h =
      let after = turn-After i (turns i) p c q.0 h in
      elim (Step-cases (turn fl call meanwhile i (turns i) p c)) [
        | inl (p', result, e) ↦ rw (e, rounds) (subst After e after)
        | inr (p', e) ↦ rw (e, rounds) (rounds-keep (suc i) turns p' cs q.1 (subst After e after))
      ]

  -- What each call keeps, on the deployments of the candidates, Execute keeps.
  pub execute_keeps :
      (r : Router F) (w : W) (turns : ℕ → Turn) (cs : List (Candidate F))
      → All (λ c. Q c.deployment) cs
      → P w
      → P (execute fl call meanwhile r w turns cs).0.world
  unfolding execute
  execute_keeps r w turns cs q h = rounds-keep 0 turns _ cs q h
