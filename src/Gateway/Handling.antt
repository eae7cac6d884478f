-- ===== src/Gateway/Handling.antt =====
-- dataplane/internal/gateway/pipeline.go: adapt and Handle.
use model_gateway.Common.{
  ℕ, String, false, List, [], ◌∷◌, ◌++◌, Option, none, some, if◌then◌else◌, length, Map,
}
use model_gateway.Core.Errors.{Error, code_of, Result, ok, err}
use model_gateway.Core.Catalog.{Deployment, total}
use model_gateway.Core.Identity.{Principal, is_empty}
use model_gateway.Core.Snapshot.{Snapshot}
use model_gateway.Gateway.{
  Answered, responded, failed, RequestMeta, Request, StageTiming, Gate, ProviderResponse, Services,
  Readings, released, counted, sent, forgot, mirrored, noted,
}
use model_gateway.Gateway.Protect.{protect}
use model_gateway.Gateway.Reporting.{Answer, no_deployment, unanswered, emit}
use model_gateway.Gateway.Stages.{authenticate, admit, guard, route}
use model_gateway.Pii.{Bytes}
use model_gateway.Pii.Transform.{restore}
use model_gateway.Policy.{Netip}
use model_gateway.Router.Execution.{Progress, execute}
use model_gateway.Router.Floats.{Floats}
use model_gateway.Router.Selection.{Candidate}

-- The pipeline while attempts are made, and the replacements of the last one that got a body.
pub record Sending (F W : Type 0) : Type 0 where
  pub gate : Gate F W
  pub out : Map Bytes Bytes

-- The timings with those of a stage that ended with an error or none.
abbrev pub timed : List StageTiming → String → Option Error → List StageTiming
timed stages name error = stages ++ record { name = name; outcome = code_of error } ∷ []

module _ {W R : Type 0} {net : Netip} (s : Services net W)
    (call : W → Deployment → RequestMeta net → Bytes → String → W × Result R) where
  -- The function that adapt gives Execute, from the resolved credential on.
  unfoldable pub attempt_with :
      {F : Type 0}
      → Principal
      → Request net
      → Sending F W
      → Deployment
      → Result String
      → Sending F W × Result R
  attempt_with p req st d (err e) = (st, err e)
  attempt_with p req st d (ok credential) =
      let (g, prepared) = protect s p req d st.gate in
      elim prepared [
        | err e ↦ (record st { gate = g }, err e)
        | ok (body, replacements) ↦
            let (w, answer) = call g.world d req.meta body credential in
            (record { gate = noted g w (sent d body); out = replacements }, answer)
      ]

  -- The function that adapt gives Execute.
  unfoldable pub attempt :
      {F : Type 0} → Principal → Request net → ℕ → Sending F W → Deployment → Sending F W × Result R
  attempt p req i st d =
      let (w, credential) = s.resolve st.gate.world d.credential_ref in
      attempt_with p req (record st { gate = record st.gate { world = w } }) d credential

  -- adapt, which also gives the attempts.
  unfoldable pub adapt :
      {F : Type 0}
      → Floats F
      → Readings F
      → Principal
      → Request net
      → List (Candidate F)
      → Gate F W
      → Progress F (Sending F W) × Result (Deployment × R)
  adapt fl now p req cs g =
      execute fl (attempt p req) now.meanwhile g.router (record { gate = g; out = [] }) now.turns cs

-- What the function that adapt gives Execute makes of Invoke: an error outweighs a response.
abbrev completed : Answered → Result ProviderResponse
completed (responded response none) = ok response
completed (responded response (some e)) = err e
completed (failed e) = err e

abbrev pub invoked :
    {W : Type 0}
    → {net : Netip} → Services net W
    → W
    → Deployment
    → RequestMeta net
    → Bytes
    → String
    → W × Result ProviderResponse
invoked s w d meta body credential =
    let (w', answer) = s.invoke w d meta body credential in (w', completed answer)

-- The pipeline after the attempts.
abbrev pub after_attempts : {F W : Type 0} → Progress F (Sending F W) → Gate F W
after_attempts p = record p.world.gate { router = p.router }

module _ {F W : Type 0} {net : Netip} (fl : Floats F) (s : Services net W) (snap : Snapshot)
    (now : Readings F) where
  -- An exit of Handle with an error.
  unfoldable pub refuse :
      Request net → Answer → Deployment → Error → Gate F W → Gate F W × (Answer × Option Error)
  refuse req a d e g = (emit snap req a d false 0 (some e) g, (a, some e))

  -- Vault.Forget, where there is a vault and something to forget.
  unfoldable pub forget : Principal → Request net → Map Bytes Bytes → Gate F W → Gate F W
  forget p req replacements g = elim s.vault [
    | none ↦ g
    | some vault ↦
        if is_empty replacements
        then g
        else noted g (vault.forget g.world p.tenant req.meta.request_id replacements)
            (forgot replacements)
  ]

  -- Handle, from the answer of a provider on.
  unfoldable pub complete :
      Principal
      → Request net
      → Answer
      → Map Bytes Bytes
      → Deployment
      → ProviderResponse
      → Gate F W
      → Gate F W × (Answer × Option Error)
  complete p req a replacements d response g =
      let a' = record a {
        status_code = response.status_code;
        body = restore s.placeholders response.body replacements;
        deployment = d.id;
        route = d.key;
        usage = response.usage;
      } in
      let g1 = forget p req replacements g in
      let g2 =
        noted g1 (s.record_tokens g1.world p (total response.usage))
          (counted p (total response.usage)) in
      let g3 = emit snap req a' d false (length replacements) none g2 in
      (if s.mirrors then noted g3 g3.world (mirrored d req.body) else g3, (a', none))

  -- Handle, from the attempts on.
  unfoldable pub settle :
      Principal
      → Request net
      → Answer
      → Deployment
      → Progress F (Sending F W) × Result (Deployment × ProviderResponse)
      → Gate F W × (Answer × Option Error)
  settle p req a first (run, err e) =
      refuse req (record a { stages = timed a.stages "adapt" (some e) }) first e
        (after_attempts run)
  settle p req a first (run, ok (d, response)) =
      complete p req (record a { stages = timed a.stages "adapt" none }) run.world.out d response
        (after_attempts run)

  -- Handle, from the candidates on; Select never gives an empty list.
  unfoldable pub dispatch :
      Principal
      → Request net
      → Answer
      → Gate F W × Result (List (Candidate F))
      → Gate F W × (Answer × Option Error)
  dispatch p req a (g, err e) =
      refuse req (record a { stages = timed a.stages "route" (some e) }) no_deployment e g
  dispatch p req a (g, ok []) = (g, (a, none))
  dispatch p req a (g, ok (c ∷ cs)) =
      settle p req
        (record a {
          stages = timed a.stages "route" none;
          deployment = c.deployment.id;
          route = c.deployment.key;
        })
        c.deployment (adapt s (invoked s) fl now p req (c ∷ cs) g)

  -- Handle, from the guardrails on.
  unfoldable pub inspected :
      Principal
      → Request net
      → Answer
      → Gate F W × Result Bytes
      → Gate F W × (Answer × Option Error)
  inspected p req a (g, err e) =
      refuse req (record a { stages = timed a.stages "guard" (some e) }) no_deployment e g
  inspected p req a (g, ok body) =
      let req' = record req { body = body } in
      dispatch p req' (record a { stages = timed a.stages "guard" none })
        (route s snap fl now p req' g)

  -- The deferred Release.
  unfoldable pub release_after :
      Principal → Gate F W × (Answer × Option Error) → Gate F W × (Answer × Option Error)
  release_after p (g, out) = (noted g (s.release g.world p) (released p), out)

  -- Handle, from admission on.
  unfoldable pub enter :
      Request net
      → Answer
      → Gate F W × Result (Principal × Request net)
      → Gate F W × (Answer × Option Error)
  enter req a (g, err e) =
      refuse req (record a { stages = timed a.stages "admit" (some e) }) no_deployment e g
  enter req a (g, ok (p, req')) =
      release_after p (
        inspected p req' (record a { stages = timed a.stages "admit" none })
          (guard s snap p req' g))

  -- Handle, from authentication on.
  unfoldable pub begin :
      Request net → Gate F W → Result Principal → Gate F W × (Answer × Option Error)
  begin req g (err e) =
      refuse req (record unanswered { stages = timed [] "authenticate" (some e) }) no_deployment e g
  begin req g (ok p) =
      enter req (record unanswered { principal = p; stages = timed [] "authenticate" none })
        (admit s snap p req g)

  -- Handle
  unfoldable pub handle : Request net → Gate F W → Gate F W × (Answer × Option Error)
  handle req g = begin req g (authenticate s snap now.now req)
