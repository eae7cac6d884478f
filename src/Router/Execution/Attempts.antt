-- ===== src/Router/Execution/Attempts.antt =====
-- What Execute tries, and how it ends.
use model_gateway.Common.{
  ℕ, suc, ◌≤◌, ◌<◌, String, ◌≡◌, refl, subst, inl, inr, Bool, true, false, not, ◌&&◌, List, [], ◌∷◌,
  ◌++◌, Option, none, some, Memᴰ, All, All-append, length, length-append, arith, ltb, leb,
  Bool-cases,
}
use model_gateway.Core.Errors.{Error, Result, ok, err, is_retryable}
use model_gateway.Core.Catalog.{Deployment}
use model_gateway.Router.Breaker.{allow}
use model_gateway.Router.Floats.{Floats}
use model_gateway.Router.Selection.{Candidate, Router, health_for}
use model_gateway.Router.Execution.{
  Attempt, Turn, Maps, Progress, Step, Step-cases, stops, continues, waits, put_breaker, breaker_of,
  interleaved, remaining, min_attempt_budget, give_up, observe_in, outcome, admitted, turn, rounds,
  execute,
}

-- An attempt after which the next candidate is tried: the breaker refused it, or it failed in a way
-- that says something of the deployment.
pub data Passed (a : Attempt) : Type 0 where
  refused : a.skipped ≡ true → a.error ≡ none → Passed a
  failed : (e : Error) → a.error ≡ some e → is_retryable (some e) ≡ true → Passed a

-- How the attempts end, given the candidates.
pub data Ends {F R : Type 0} (cs : List (Candidate F)) (attempts : List Attempt)
    (result : Result (Deployment × R)) : Type 0 where
  served :
      (before : List Attempt) (a : Attempt) (c : Candidate F) (response : R)
      → All Passed before
      → attempts ≡ before ++ a ∷ []
      → a.error ≡ none
      → a.deployment ≡ c.deployment.id
      → Memᴰ c cs
      → result ≡ ok (c.deployment, response)
      → Ends cs attempts result
  rejected :
      (before : List Attempt) (a : Attempt) (e : Error)
      → All Passed before
      → attempts ≡ before ++ a ∷ []
      → a.error ≡ some e
      → is_retryable (some e) ≡ false
      → result ≡ err e
      → Ends cs attempts result
  exhausted : (e : Error) → All Passed attempts → result ≡ err e → Ends cs attempts result

All-weaken :
    {A : Type 0} (P Q : A → Type 0) (xs : List A) → ((x : A) → P x → Q x) → All P xs → All Q xs
All-weaken P Q [] f h = tt
All-weaken P Q (x ∷ xs) f h = (f x h.0, All-weaken P Q xs f h.1)

all_members : {A : Type 0} (xs : List A) → All (λ x. Memᴰ x xs) xs
all_members [] = tt
all_members (x ∷ xs) = (
  Memᴰ.head refl,
  All-weaken (λ y. Memᴰ y xs) (λ y. Memᴰ y (x ∷ xs)) xs (λ y m. Memᴰ.tail m) (all_members xs),
)

module _ {F W R : Type 0} (fl : Floats F) (call : ℕ → W → Deployment → W × Result R)
    (meanwhile : ℕ → Maps F → Maps F) where
  -- What a round leaves: the end, or attempts that were passed and not more of them than rounds.
  abbrev Fine : ℕ → ℕ → List (Candidate F) → Step F W R → Type 0
  Fine i bound cs (stops p result) = Ends cs p.attempts result × (length p.attempts ≤ bound)
  Fine i bound cs (continues p) =
      All Passed p.attempts
      × (length p.attempts ≤ suc i)
      × (length p.attempts ≤ bound)
      × (p.router.max_attempts ≡ bound)

  give_up-Ends :
      (cs : List (Candidate F)) (attempts : List Attempt) (last : Option Error)
      → All Passed attempts
      → Ends cs attempts (give_up fl call meanwhile last)
  unfolding give_up
  give_up-Ends cs attempts none h = exhausted _ h refl
  give_up-Ends cs attempts (some e) h = exhausted e h refl

  observe_in-max_attempts :
      (r : Router F) (id : String) (bad : Bool) (t : Turn)
      → (observe_in fl call meanwhile r id bad t).max_attempts ≡ r.max_attempts
  unfolding observe_in health_for
  observe_in-max_attempts r id bad t = ground arith

  outcome-Fine :
      (i : ℕ) (t : Turn) (p : Progress F W) (c : Candidate F) (cs : List (Candidate F))
      (answer : W × Result R)
      → Memᴰ c cs
      → i < p.router.max_attempts
      → All Passed p.attempts
      → length p.attempts ≤ i
      → Fine i p.router.max_attempts cs (outcome fl call meanwhile t p c answer)
  unfolding outcome
  outcome-Fine i t p c cs (w, ok response) m b h n = (
    served p.attempts _ c response h refl refl refl m refl,
    omega (
      arith,
      length-append p.attempts (
          record {
            deployment = c.deployment.id;
            latency = t.latency;
            error = none;
            skipped = false;
          }
          ∷ []),
    ),
  )
  outcome-Fine i t p c cs (w, err e) m b h n =
      let a : Attempt = record {
        deployment = c.deployment.id;
        latency = t.latency;
        error = some e;
        skipped = false;
      } in
      let more = length-append p.attempts (a ∷ []) in
      elim (Bool-cases (is_retryable (some e))) [
        | inl q ↦ rw q (
          All-append Passed p.attempts (a ∷ []) h (failed e refl q, tt),
          omega (arith, more),
          omega (arith, more),
          observe_in-max_attempts _ c.deployment.id true t,
        )
        | inr q ↦ rw q (rejected p.attempts a e h refl refl q refl, omega (arith, more))
      ]

  admitted-Fine :
      (i : ℕ) (t : Turn) (p : Progress F W) (c : Candidate F) (cs : List (Candidate F))
      (allowed : Bool)
      → Memᴰ c cs
      → i < p.router.max_attempts
      → All Passed p.attempts
      → length p.attempts ≤ i
      → Fine i p.router.max_attempts cs (admitted fl call meanwhile i t p c allowed)
  unfolding admitted
  admitted-Fine i t p c cs false m b h n =
      let a : Attempt = record {
        deployment = c.deployment.id;
        latency = 0;
        error = none;
        skipped = true;
      } in
      (
        All-append Passed p.attempts (a ∷ []) h (refused refl refl, tt),
        omega (arith, length-append p.attempts (a ∷ []), n),
        omega (arith, length-append p.attempts (a ∷ []), n),
        refl,
      )
  admitted-Fine i t p c cs true m b h n =
      elim (Bool-cases (ltb 0 i && not (waits p.router.backoff t.alive))) [
        | inl q ↦ rw q (give_up-Ends cs p.attempts p.last h, omega arith)
        | inr q ↦ elim (Bool-cases t.present) [
          | inr z ↦ rw (q, z) (h, omega arith, omega arith, refl)
          | inl z ↦ rw q (
              simp z (
                outcome-Fine i t
                  (record p {
                    router = interleaved (meanwhile i) p.router;
                    saw = p.saw ++ c.deployment.id ∷ [];
                  })
                  c cs (call i p.world c.deployment) m b h n))
        ]
      ]

  turn-Fine :
      (i : ℕ) (t : Turn) (p : Progress F W) (c : Candidate F) (cs : List (Candidate F))
      → Memᴰ c cs
      → All Passed p.attempts
      → length p.attempts ≤ i
      → length p.attempts ≤ p.router.max_attempts
      → Fine i p.router.max_attempts cs (turn fl call meanwhile i t p c)
  unfolding turn
  turn-Fine i t p c cs m h n k = elim (Bool-cases (leb p.router.max_attempts i)) [
    | inl q ↦ rw q (give_up-Ends cs p.attempts p.last h, k)
    | inr q ↦
        elim (Bool-cases (ltb (remaining t.context t.deadline t.budgeting) min_attempt_budget)) [
          | inl z ↦ rw (q, z) (give_up-Ends cs p.attempts p.last h, k)
          | inr z ↦
              let (b, allowed) = allow (breaker_of p.router c.deployment.id) t.allowing in
              rw (q, z)
                (admitted-Fine i t (record p { router = put_breaker p.router c.deployment.id b }) c
                  cs allowed m (ground (arith, q)) h n)
        ]
  ]

  rounds-Ends :
      (i : ℕ) (turns : ℕ → Turn) (p : Progress F W) (cs all : List (Candidate F))
      → All (λ c. Memᴰ c all) cs
      → All Passed p.attempts
      → length p.attempts ≤ i
      → length p.attempts ≤ p.router.max_attempts
      → let out = rounds fl call meanwhile i turns p cs in
        Ends all out.0.attempts out.1 × (length out.0.attempts ≤ p.router.max_attempts)
  unfolding rounds
  rounds-Ends i turns p [] all m h n k = (give_up-Ends all p.attempts p.last h, k)
  rounds-Ends i turns p (c ∷ cs) all m h n k =
      let fine = turn-Fine i (turns i) p c all m.0 h n k in
      elim (Step-cases (turn fl call meanwhile i (turns i) p c)) [
        | inl (p', result, e) ↦
            rw (e, rounds) (subst (λ x. Fine i p.router.max_attempts all x) e fine)
        | inr (p', e) ↦
            let (h', n', k', same) = subst (λ x. Fine i p.router.max_attempts all x) e fine in
            let rest = rounds-Ends (suc i) turns p' cs all m.1 h' n' (omega (arith, k', same)) in
            rw (e, rounds) (rest.0, omega (arith, rest.1, same))
      ]

  -- Execute makes no more attempts than its limit. It serves the answer of the last attempt, on one of
  -- the candidates; or it stops at the first error that is not retryable, and returns that; or it
  -- fails with every attempt refused by a breaker or failed retryably. In each case all attempts but
  -- the last are of that last kind.
  pub execute-Ends :
      (r : Router F) (w : W) (turns : ℕ → Turn) (cs : List (Candidate F))
      → let out = execute fl call meanwhile r w turns cs in
        Ends cs out.0.attempts out.1 × (length out.0.attempts ≤ r.max_attempts)
  unfolding execute
  execute-Ends r w turns cs =
      rounds-Ends 0 turns (record { router = r; world = w; attempts = []; saw = []; last = none })
        cs cs (all_members cs) tt (omega arith) (omega arith)
