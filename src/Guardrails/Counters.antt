-- ===== src/Guardrails/Counters.antt =====
-- What becomes of each binding of a chain.
use model_gateway.Common.{
  ℕ, suc, ◌+◌, ◌≤◌, ◌≡◌, refl, sym, subst, ap, Option-cases, zero, some, ap, inl, inr, Option-cases,
  zero, some, false, List, [], ◌∷◌, length, arith,
}
use model_gateway.Core.Errors.{Result, ok, err}
use model_gateway.Core.Guardrail.{
  Verdict, verdict_allow, verdict_deny, verdict_mutate, Payload, GuardrailInput, GuardrailResult,
  GuardrailBinding,
}
use model_gateway.Guardrails.{
  Chain, Registry, Job, pick, count_off_path, finish_off_path, dispatch, on_failure, on_verdict,
  on_answer, on_missing, evaluate, visit, run_from,
}
use model_gateway.Guardrails.Blocking.{Next-cases}

-- How many bindings the chain has dealt with: run inline, run or queued off the path, or skipped.
abbrev pub dealt : Chain → ℕ
dealt c = c.evaluated + c.skipped + length c.off_path

-- The evaluations off the path are within their bound.
abbrev pub Bounded : Chain → Type 0
Bounded c = length c.off_path ≤ c.off_path_limit

on_answer-dealt :
    (c : Chain) (b : GuardrailBinding) (p : Payload) (answer : Result GuardrailResult)
    → (dealt (on_answer c b p answer).0 ≡ dealt c)
      × ((on_answer c b p answer).0.off_path ≡ c.off_path)
      × ((on_answer c b p answer).0.off_path_limit ≡ c.off_path_limit)
unfolding on_answer on_failure on_verdict
on_answer-dealt c b p (err e) = ground arith
on_answer-dealt c b p (ok r) = verdicts r.verdict
  where
    verdicts :
        (v : Verdict)
        → (dealt (on_verdict c v r.payload p).0 ≡ dealt c)
          × ((on_verdict c v r.payload p).0.off_path ≡ c.off_path)
          × ((on_verdict c v r.payload p).0.off_path_limit ≡ c.off_path_limit)
    verdicts verdict_allow = (refl, refl, refl)
    verdicts verdict_deny = (refl, refl, refl)
    verdicts verdict_mutate = (refl, refl, refl)

module _ (registry : Registry) where
  visit-dealt :
      (c : Chain) (b : GuardrailBinding) (input : GuardrailInput) (p : Payload)
      → Bounded c
      → (dealt (visit registry c b input p).0 ≡ suc (dealt c))
        × Bounded (visit registry c b input p).0
  unfolding visit evaluate on_missing dispatch
  visit-dealt c b input p h =
      let given = record input { payload = p } in
      let answer = (evaluate registry c b given).1 in
      let after = on_answer-dealt (record c { evaluated = suc c.evaluated }) b p answer in
      ground (arith, after.0, after.1, after.2)

  -- A chain whose evaluations off the path are within their bound, and that lets a request through,
  -- has dealt with each of its bindings once: run it inline, put it off the request path, or
  -- counted it as skipped; and the bound still holds.
  pub run-dealt :
      (c : Chain) (bs : List GuardrailBinding) (input : GuardrailInput) (p : Payload)
      → Bounded c
      → (run_from registry c bs input p).1.denied ≡ false
      → (dealt (run_from registry c bs input p).0 ≡ dealt c + length bs)
        × Bounded (run_from registry c bs input p).0
  unfolding run_from
  run-dealt c [] input p h e = (omega arith, h)
  run-dealt c (b ∷ bs) input p h e = elim (Next-cases (visit registry c b input p).1) [
    | inl q ↦ ground (arith, q)
    | inr (p', q) ↦
        let c' = (visit registry c b input p).0 in
        let step = visit-dealt c b input p h in
        let rest = run-dealt c' bs input p' step.1 (ground (arith, q)) in
        ground (arith, q, step.0, rest.0, rest.1)
  ]

-- Picking takes one job out.
pick-length :
    (js : List Job) (i : ℕ) (k : Job) (rest : List Job)
    → pick js i ≡ some (k, rest)
    → length js ≡ suc (length rest)
unfolding pick
pick-length [] i k rest e = cc
pick-length (j ∷ js) zero k rest e = let same : js ≡ rest = cc in ap (λ l. suc (length l)) same
pick-length (j ∷ js) (suc i) k rest e = elim (Option-cases (pick js i)) [
  | inl q ↦ ground (arith, q)
  | inr ((x, others), q) ↦
      let same : j ∷ others ≡ rest = ground (arith, q) in
      rw (pick-length js i x others q) (ap (λ l. suc (length l)) same)
]

count_off_path-dealt :
    (c : Chain) (r : Result GuardrailResult)
    → (dealt (count_off_path c r) ≡ dealt c)
      × ((count_off_path c r).off_path ≡ c.off_path)
      × ((count_off_path c r).off_path_limit ≡ c.off_path_limit)
      × ((count_off_path c r).denied ≡ c.denied)
      × ((count_off_path c r).mutated ≡ c.mutated)
unfolding count_off_path
count_off_path-dealt c (err e) = (refl, refl, refl, refl, refl)
count_off_path-dealt c (ok r) = (refl, refl, refl, refl, refl)

module _ (registry : Registry) where
  -- When an evaluation off the request path ends, whatever it answers, its place is free again and
  -- only its place, it has been counted as evaluated once, the bound still holds, and neither the
  -- count of denials nor that of mutations changes.
  pub finish-dealt :
      (c : Chain) (i : ℕ) (k : Job) (rest : List Job)
      → pick c.off_path i ≡ some (k, rest)
      → Bounded c
      → let after = finish_off_path registry c i in
        (dealt after ≡ dealt c)
        × (after.off_path ≡ rest)
        × Bounded after
        × (after.denied ≡ c.denied)
        × (after.mutated ≡ c.mutated)
  unfolding finish_off_path evaluate count_off_path
  finish-dealt c i k rest e h =
      let (c', answer) = evaluate registry (record c { off_path = rest }) k.binding k.input in
      let counted = count_off_path-dealt c' answer in
      let fewer = pick-length c.off_path i k rest e in
      rw e (
        omega (arith, counted.0, fewer),
        counted.1,
        subst (λ n. length (count_off_path c' answer).off_path ≤ n) (sym counted.2)
            (subst (λ l. length l ≤ c.off_path_limit) (sym counted.1) (omega (arith, h, fewer))),
        counted.3,
        counted.4,
      )
