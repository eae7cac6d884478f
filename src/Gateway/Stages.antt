-- ===== src/Gateway/Stages.antt =====
-- dataplane/internal/gateway/pipeline.go: authenticate, applyPolicy, admit, guard and route.
use model_gateway.Common.{
  ℕ, String_comparable, not, List, [], ◌∷◌, none, some, ltb, if◌then◌else◌, ◌==◌,
}
use model_gateway.Common.Int.{ℤ, pos, negsuc, quot}
use model_gateway.Core.Errors.{
  Result, ok, err, new, newf, text, number, wrap, unauthenticated, forbidden, budget_exhausted,
  guardrail_denied, ◌>>=◌,
}
use model_gateway.Core.Guardrail.{phase_request}
use model_gateway.Core.Identity.{Principal, parse_api_key, permits, validate, is_empty}
use model_gateway.Core.Snapshot.{Snapshot}
use model_gateway.Core.Snapshot.Lookups
use model_gateway.Guardrails.{Outcome}
use model_gateway.Gateway.{Request, Gate, Services, Readings, admitted, noted}
use model_gateway.Gateway.Protect.{over}
use model_gateway.Pii.{Bytes}
use model_gateway.Policy.{Netip, Decision, Input, evaluate}
use model_gateway.Router.Floats.{Floats}
use model_gateway.Router.Selection.{Candidate, SelectionInput, balanced, select}

-- payloadBytes
unfoldable pub payload_bytes : ℤ → ℕ
payload_bytes (pos n) = n
payload_bytes (negsuc n) = 0

-- The principal as the decision leaves it.
unfoldable pub stamped : Principal → Decision → Principal
stamped p d = record p {
  default_class = if d.data_class == "" then p.default_class else d.data_class;
  min_trust_tier =
      if ltb p.min_trust_tier d.min_trust_tier then d.min_trust_tier else p.min_trust_tier;
}

module _ {W : Type 0} {net : Netip} (s : Services net W) (snap : Snapshot) where
  -- authenticate, after ParseAPIKey.
  unfoldable pub recognised : ℕ → Bytes × Bytes → Result Principal
  recognised now (prefix, secret) = elim (Lookups.tenant_for_prefix snap prefix) [
    | none ↦ err (new unauthenticated "unknown api key")
    | some tenant ↦ elim (Lookups.principal snap tenant (s.key_lookup secret)) [
      | none ↦ err (new unauthenticated "unknown api key")
      | some p ↦ validate p now >>= λ _. ok p
    ]
  ]

  -- authenticate
  unfoldable pub authenticate : ℕ → Request net → Result Principal
  authenticate now req = parse_api_key req.api_key >>= recognised now

  -- applyPolicy, from the evaluated bundle on.
  unfoldable pub decided : Principal → Request net → Decision → Result (Principal × Request net)
  decided p req d =
      if not d.allowed
      then err (
          newf forbidden "%s (rule %s)"
            (text (if d.reason == "" then "refused by policy" else d.reason) ∷ text d.rule_id ∷ []))
      else ok (stamped p d, record req { deep_inspection = d.deep_inspection })

  -- The input of the policy.
  abbrev pub policy_input : Principal → Request net → Input net
  policy_input p req = record {
    model = req.meta.model;
    endpoint = req.meta.endpoint;
    roles = p.roles;
    region = s.region;
    source = req.meta.source_ip;
    payload = payload_bytes req.meta.payload_bytes;
  }

  -- applyPolicy, which changes the principal and the request that it is given.
  unfoldable pub apply_policy :
      {F : Type 0}
      → Principal
      → Request net
      → Gate F W
      → Gate F W × Result (Principal × Request net)
  apply_policy p req g =
      let raw = Lookups.policy snap p.tenant in
      let (w, bundle) = s.policy_for g.world p.tenant (Lookups.global_version snap).digest raw in
      if is_empty raw then (g, ok (p, req)) else elim bundle [
        | err e ↦ (
          record g { world = w },
          err (over e (wrap forbidden (some e) "policy could not be evaluated")),
        )
        | ok b ↦ (record g { world = w }, decided p req (evaluate net b (policy_input p req)))
      ]

  -- The limiter's part of admit.
  unfoldable pub limited :
      {F : Type 0}
      → Principal × Request net
      → Gate F W
      → Gate F W × Result (Principal × Request net)
  limited (p, req) g =
      let (w, d) = s.admit g.world p in
      if d.allowed then (noted g w (admitted p), ok (p, req)) else (
        record g { world = w },
        err (newf d.reason "rate limit exceeded; retry in %s" (number d.retry_after ∷ [])),
      )

  -- admit, from the policy's answer on.
  unfoldable pub affordable :
      {F : Type 0}
      → Gate F W × Result (Principal × Request net)
      → Gate F W × Result (Principal × Request net)
  affordable (g, err e) = (g, err e)
  affordable (g, ok (p, req)) = elim (Lookups.denied_budget snap p) [
    | some b ↦ (g, err (newf budget_exhausted "budget %q is exhausted" (text b.id ∷ [])))
    | none ↦ limited (p, req) g
  ]

  -- admit, which returns the principal and the request as applyPolicy left them.
  unfoldable pub admit :
      {F : Type 0}
      → Principal
      → Request net
      → Gate F W
      → Gate F W × Result (Principal × Request net)
  admit p req g =
      if not (permits p.models req.meta.model)
      then (g, err (newf forbidden "this key may not call %q" (text req.meta.model ∷ [])))
      else affordable (apply_policy p req g)

  -- What guard makes of the chain's outcome.
  unfoldable pub verdict : Result Outcome → Result Bytes
  verdict (err e) = err e
  verdict (ok o) =
      if o.denied
      then err (newf guardrail_denied "request refused by the %s guardrail" (text o.reason ∷ []))
      else ok o.payload

  -- guard
  unfoldable pub guard : {F : Type 0} → Principal → Request net → Gate F W → Gate F W × Result Bytes
  guard p req g =
      let bindings = Lookups.guardrails snap p.tenant phase_request in
      let (w, outcome) = s.inspect g.world bindings (record {
        phase = phase_request;
        request_id = req.meta.request_id;
        class = p.default_class;
        tier = 0;
        payload = req.body;
      }) in
      if is_empty bindings then (g, ok req.body) else (record g { world = w }, verdict outcome)

  -- The input of route's selection.
  unfoldable pub wanted : Principal → Request net → SelectionInput
  wanted p req = record {
    snapshot = snap;
    tenant = p.tenant;
    model = req.meta.model;
    endpoint = req.meta.endpoint;
    min_trust_tier =
        if ltb (Lookups.min_trust_tier snap p.tenant) p.min_trust_tier
        then p.min_trust_tier
        else Lookups.min_trust_tier snap p.tenant;
    required = [];
    objective = balanced;
    region = s.region;
    reference_tokens = quot req.meta.payload_bytes 4;
  }

  -- route
  unfoldable pub route :
      {F : Type 0}
      → Floats F
      → Readings F
      → Principal
      → Request net
      → Gate F W
      → Gate F W × Result (List (Candidate F))
  route fl now p req g =
      let (r, out) = select fl g.router s.providers now.clock now.draw (wanted p req) in
      (record g { router = r }, out)
