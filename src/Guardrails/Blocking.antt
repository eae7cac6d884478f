-- ===== src/Guardrails/Blocking.antt =====
-- Which guardrails can refuse a request, and which must.
use model_gateway.Common.{
  ℕ, String, ◌≡◌, refl, sym, subst, ◌∙◌, ◌⊎◌, inl, inr, true, false, List, [], ◌∷◌, Memᴰ, arith,
  Bool-cases,
}
use model_gateway.Core.Errors.{Error, err}
use model_gateway.Core.Guardrail.{fail_closed, Payload, GuardrailInput, GuardrailBinding}
use model_gateway.Guardrails.{
  Chain, Registry, Next, stops, goes, judged, on_failure, on_answer, on_missing, evaluate, visit,
  run_from,
}

-- To split on a computed step and keep the equation.
pub Next-cases : (n : Next) → (n ≡ stops) ⊎ ((p : Payload) × (n ≡ goes p))
Next-cases stops = inl refl
Next-cases (goes p) = inr (p, refl)

module _ (registry : Registry) where
  visit_stops :
      (c : Chain) (b : GuardrailBinding) (input : GuardrailInput) (p : Payload)
      → (visit registry c b input p).1 ≡ stops
      → b.budget.blocking ≡ true
  unfolding visit on_missing
  visit_stops c b input p e = ground arith

  -- A request is refused only in the name of a blocking guardrail that is bound.
  pub run-denied :
      (c : Chain) (bs : List GuardrailBinding) (input : GuardrailInput) (p : Payload)
      → (run_from registry c bs input p).1.denied ≡ true
      → (b : GuardrailBinding) × Memᴰ b bs
        × ((run_from registry c bs input p).1.reason ≡ b.component)
        × (b.budget.blocking ≡ true)
  unfolding run_from
  run-denied c [] input p e = cc
  run-denied c (b ∷ bs) input p e = elim (Next-cases (visit registry c b input p).1) [
    | inl q ↦ (b, Memᴰ.head refl, ground (arith, q), visit_stops c b input p q)
    | inr (p', q) ↦
        let c' = (visit registry c b input p).0 in
        let rest = run-denied c' bs input p' (ground (arith, q)) in
        (rest.0, Memᴰ.tail rest.1, ground (arith, q, rest.2), rest.3)
  ]

  -- A guardrail that cannot do its work: it is not installed, or every inspection by it fails.
  pub data Unavailable (component : String) : Type 0 where
    missing : registry.installed component ≡ false → Unavailable component
    failing :
        ((n timeout : ℕ) (input : GuardrailInput)
          → (e : Error) × (registry.inspect n component timeout input ≡ err e))
        → Unavailable component

  visit-Unavailable :
      (c : Chain) (b : GuardrailBinding) (input : GuardrailInput) (p : Payload)
      → b.budget.blocking ≡ true
      → b.budget.mode ≡ fail_closed
      → Unavailable b.component
      → (visit registry c b input p).1 ≡ stops
  unfolding visit evaluate judged on_missing on_answer on_failure
  visit-Unavailable c b input p k m (missing g) = ground (arith, k, m, g)
  visit-Unavailable c b input p k m (failing f) =
      elim (Bool-cases (registry.installed b.component)) [
        | inl i ↦ rw (i, k, (f c.evaluated _ (record input { payload = p })).1, m) refl
        | inr i ↦ ground (arith, k, m, i)
      ]

  -- A blocking guardrail that fails closed cannot be got round: where it is missing, or its
  -- inspections fail or time out, every request that it is bound to is refused.
  pub run-Unavailable :
      (c : Chain) (bs : List GuardrailBinding) (input : GuardrailInput) (p : Payload)
      (b : GuardrailBinding)
      → Memᴰ b bs
      → b.budget.blocking ≡ true
      → b.budget.mode ≡ fail_closed
      → Unavailable b.component
      → (run_from registry c bs input p).1.denied ≡ true
  unfolding run_from
  run-Unavailable c [] input p b m k f u = elim m [ ]
  run-Unavailable c (x ∷ bs) input p b m k f u = elim (Next-cases (visit registry c x input p).1) [
    | inl q ↦ ground (arith, q)
    | inr (p', q) ↦
        let c' = (visit registry c x input p).0 in
        elim m [
          | Memᴰ.head e ↦
              let stopped : (visit registry c x input p).1 ≡ stops =
                subst (λ z. (visit registry c z input p).1 ≡ stops) e
                  (visit-Unavailable c b input p k f u) in
              let absurd_step : stops ≡ goes p' = sym stopped ∙ q in cc
          | Memᴰ.tail t ↦ ground (arith, q, run-Unavailable c' bs input p' b t k f u)
        ]
  ]
