-- ===== src/Gateway/Streaming.antt =====
-- dataplane/internal/gateway/pipeline.go: HandleStream and Finish. A started stream is `S`.
use model_gateway.Common.{
  ℕ, String, Bool, true, false, List, [], ◌∷◌, Option, none, some, if◌then◌else◌, length, Map,
}
use model_gateway.Core.Errors.{Error, Result, ok, err}
use model_gateway.Core.Catalog.{Deployment, RoutingKey, TokenUsage, total}
use model_gateway.Core.Identity.{Principal}
use model_gateway.Core.Snapshot.{Snapshot}
use model_gateway.Gateway.{
  RequestMeta, Request, StageTiming, Gate, Services, Readings, released, counted, noted,
}
use model_gateway.Gateway.Handling.{Sending, timed, adapt, after_attempts, forget}
use model_gateway.Gateway.Reporting.{Answer, no_deployment, unanswered, emit}
use model_gateway.Gateway.Stages.{authenticate, admit, guard, route}
use model_gateway.Pii.{Bytes}
use model_gateway.Policy.{Netip}
use model_gateway.Router.Execution.{Attempt, Progress}
use model_gateway.Router.Floats.{Floats}
use model_gateway.Router.Selection.{Candidate}

-- What the finish function of a started stream holds: the served deployment, and how many values were
-- replaced.
pub record Started (S : Type 0) : Type 0 where
  pub chunks : S
  pub served : Deployment
  pub redactions : ℕ

-- StreamResult. Its function fields are the values that they close over: `holds` is the principal
-- whose slot releaseLimit gives back, with the request as it was admitted, and `forgets` the
-- replacements that forget removes.
pub record StreamResult (net : Netip) (S : Type 0) : Type 0 where
  pub principal : Principal
  pub deployment : String
  pub route : RoutingKey
  pub holds : Option (Principal × Request net)
  pub forgets : Map Bytes Bytes
  pub started : Option (Started S)
  pub finished : Bool

abbrev pub no_key : RoutingKey
no_key = record { base_model = ""; adapter_id = "" }

abbrev pub unstarted : {S : Type 0} → {net : Netip} → Principal → StreamResult net S
unstarted p = record {
  principal = p;
  deployment = "";
  route = no_key;
  holds = none;
  forgets = [];
  started = none;
  finished = false;
}

-- The last of the attempts, if there is one, names the deployment of a stream that failed to start.
abbrev pub last_tried : String → List Attempt → String
last_tried id [] = id
last_tried id (a ∷ rest) = last_tried a.deployment rest

module _ {F W S : Type 0} {net : Netip} (fl : Floats F) (s : Services net W) (snap : Snapshot)
    (now : Readings F)
    (connect : W → Deployment → RequestMeta net → Bytes → String → W × Result S) where
  -- The record that emit forms of a StreamResult.
  abbrev pub answer_of : StreamResult net S → List StageTiming → Answer
  answer_of r stages = record unanswered {
    principal = r.principal;
    deployment = r.deployment;
    route = r.route;
    stages = stages;
  }

  -- An exit of HandleStream with an error.
  unfoldable pub fail_stream :
      Request net
      → StreamResult net S
      → List StageTiming
      → Error
      → Gate F W
      → Gate F W × (StreamResult net S × Option Error)
  fail_stream req r stages e g =
      (emit snap req (answer_of r stages) no_deployment true 0 (some e) g, (r, some e))

  -- HandleStream, from the attempts on.
  unfoldable pub open_stream :
      Principal
      → Request net
      → StreamResult net S
      → List StageTiming
      → Progress F (Sending F W) × Result (Deployment × S)
      → Gate F W × (StreamResult net S × Option Error)
  open_stream p req r stages (run, err e) =
      fail_stream req (record r { deployment = last_tried r.deployment run.attempts })
        (timed stages "adapt" (some e)) e (after_attempts run)
  open_stream p req r stages (run, ok (d, chunks)) = (
    after_attempts run,
    (
      record r {
        deployment = d.id;
        route = d.key;
        forgets = run.world.out;
        started = some (record { chunks = chunks; served = d; redactions = length run.world.out });
      },
      none,
    ),
  )

  -- HandleStream, from the candidates on.
  unfoldable pub dispatch_stream :
      Principal
      → Request net
      → StreamResult net S
      → List StageTiming
      → Gate F W × Result (List (Candidate F))
      → Gate F W × (StreamResult net S × Option Error)
  dispatch_stream p req r stages (g, err e) = fail_stream req r (timed stages "route" (some e)) e g
  dispatch_stream p req r stages (g, ok cs) =
      open_stream p req r (timed stages "route" none) (adapt s connect fl now p req cs g)

  -- HandleStream, from the guardrails on.
  unfoldable pub inspected_stream :
      Principal
      → Request net
      → StreamResult net S
      → List StageTiming
      → Gate F W × Result Bytes
      → Gate F W × (StreamResult net S × Option Error)
  inspected_stream p req r stages (g, err e) = fail_stream req r (timed stages "guard" (some e)) e g
  inspected_stream p req r stages (g, ok body) =
      let req' = record req { body = body } in
      dispatch_stream p req' r (timed stages "guard" none) (route s snap fl now p req' g)

  -- HandleStream, from admission on.
  unfoldable pub enter_stream :
      Request net
      → StreamResult net S
      → List StageTiming
      → Gate F W × Result (Principal × Request net)
      → Gate F W × (StreamResult net S × Option Error)
  enter_stream req r stages (g, err e) = fail_stream req r (timed stages "admit" (some e)) e g
  enter_stream req r stages (g, ok (p, req')) =
      inspected_stream p req' (record r { holds = some (p, req') }) (timed stages "admit" none)
        (guard s snap p req' g)

  -- HandleStream, from authentication on.
  unfoldable pub begin_stream :
      Request net → Gate F W → Result Principal → Gate F W × (StreamResult net S × Option Error)
  begin_stream req g (err e) =
      fail_stream req (unstarted unanswered.principal) (timed [] "authenticate" (some e)) e g
  begin_stream req g (ok p) =
      enter_stream req (unstarted p) (timed [] "authenticate" none) (admit s snap p req g)

  -- HandleStream
  unfoldable pub handle_stream :
      Request net → Gate F W → Gate F W × (StreamResult net S × Option Error)
  handle_stream req g = begin_stream req g (authenticate s snap now.now req)

  -- The finish function, with the usage and the error of the stream.
  unfoldable pub account :
      Principal
      → Request net
      → StreamResult net S
      → TokenUsage
      → Option Error
      → Option (Started S)
      → Gate F W
      → Gate F W
  account p req r usage error none g = g
  account p req r usage error (some t) g =
      emit snap req (record (answer_of r []) { usage = usage }) t.served true t.redactions error
        (noted g (s.record_tokens g.world p (total usage)) (counted p (total usage)))

  -- The body of Finish's once: forget, release, account.
  unfoldable pub wind_up :
      StreamResult net S
      → TokenUsage
      → Option Error
      → Option (Principal × Request net)
      → Gate F W
      → Gate F W
  wind_up r usage error none g = g
  wind_up r usage error (some (p, req)) g =
      let g1 = forget fl s snap now p req r.forgets g in
      account p req r usage error r.started (noted g1 (s.release g1.world p) (released p))

  -- Finish
  unfoldable pub finish :
      StreamResult net S → TokenUsage → Option Error → Gate F W → Gate F W × StreamResult net S
  finish r usage error g =
      if r.finished then (g, r) else (wind_up r usage error r.holds g, record r { finished = true })
