-- ===== src/Gateway/Shadowing.antt =====
-- dataplane/internal/gateway/pipeline.go: ShadowCall, which runs a mirrored request.
use model_gateway.Common.{ℕ, String, false, List, [], ◌∷◌, Option, none, some, Map}
use model_gateway.Common.Int.{pos}
use model_gateway.Core.Errors.{Error, Result, ok, err, newf, text, internal, code_of}
use model_gateway.Core.Catalog.{Deployment, TokenUsage, cost_for}
use model_gateway.Core.Identity.{Principal}
use model_gateway.Gateway.{
  Answered, responded, failed, RequestMeta, Request, UsageEvent, Gate, Services, sent, used, noted,
}
use model_gateway.Gateway.Protect.{protect}
use model_gateway.Gateway.Reporting.{nobody, no_usage}
use model_gateway.Pii.{Bytes}
use model_gateway.Policy.{Netip}

-- shadow.Request
pub record ShadowRequest (net : Netip) : Type 0 where
  pub meta : RequestMeta net
  pub body : Bytes
  pub tenant : String
  pub principal : String
  pub tier : String
  pub snapshot_version : ℕ
  pub budget_ids : List String

-- The event that emitShadowUsage sends.
unfoldable pub shadow_event :
    {net : Netip} → Deployment → ShadowRequest net → TokenUsage → Option Error → UsageEvent
shadow_event d q usage error = record {
  request_id = q.meta.request_id;
  tenant = q.tenant;
  key_id = q.principal;
  tier = q.tier;
  deployment = d.id;
  route = d.key;
  provider = d.provider;
  stream = false;
  shadow = some d.id;
  usage = usage;
  cost = cost_for d.cost usage;
  price = pos 0;
  outcome = code_of error;
  stages = [];
  snapshot_version = q.snapshot_version;
  budgets = q.budget_ids;
}

-- The principal that ShadowCall forms, and the request.
abbrev pub shadow_principal : {net : Netip} → ShadowRequest net → Principal
shadow_principal q = record nobody { tenant = q.tenant; key_id = q.principal }

abbrev pub shadowed : {net : Netip} → ShadowRequest net → Request net
shadowed q = record { meta = q.meta; api_key = []; body = q.body; deep_inspection = false }

module _ {F W : Type 0} {net : Netip} (s : Services net W) where
  -- ShadowCall, from the provider's answer on; without a response there is no usage.
  unfoldable pub tally :
      Deployment → ShadowRequest net → Gate F W → Answered → Gate F W × Option Error
  tally d q g (responded response error) =
      (noted g g.world (used (shadow_event d q response.usage error)), error)
  tally d q g (failed e) = (noted g g.world (used (shadow_event d q no_usage (some e))), some e)

  -- ShadowCall, from the prepared body on.
  unfoldable pub send_shadow :
      Deployment
      → ShadowRequest net
      → String
      → Gate F W × Result (Bytes × Map Bytes Bytes)
      → Gate F W × Option Error
  send_shadow d q credential (g, err e) = (g, some e)
  send_shadow d q credential (g, ok (body, _)) =
      let (w, answer) = s.invoke g.world d q.meta body credential in
      tally d q (noted g w (sent d body)) answer

  -- ShadowCall, from the credential on.
  unfoldable pub call_with :
      Deployment → ShadowRequest net → Gate F W → Result String → Gate F W × Option Error
  call_with d q g (err e) = (g, some e)
  call_with d q g (ok credential) =
      send_shadow d q credential (protect s (shadow_principal q) (shadowed q) d g)

  -- ShadowCall
  unfoldable pub shadow_call : Deployment → ShadowRequest net → Gate F W → Gate F W × Option Error
  shadow_call d q g =
      let (w, credential) = s.resolve g.world d.credential_ref in
      elim (s.providers d.provider) [
        | none ↦ (
          g,
          some (newf internal "no provider %q for shadow %s" (text d.provider ∷ text d.id ∷ [])),
        )
        | some _ ↦ call_with d q (record g { world = w }) credential
      ]
