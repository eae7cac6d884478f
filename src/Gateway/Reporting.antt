-- ===== src/Gateway/Reporting.antt =====
-- dataplane/internal/gateway/pipeline.go and audit.go: the records that telemetry is given.
use model_gateway.Common.{
  ℕ, String, String_comparable, Bool, false, not, ◌&&◌, List, [], map, Option, none, some, ltb,
  if◌then◌else◌, ◌==◌,
}
use model_gateway.Common.Int.{pos}
use model_gateway.Core.Budget.{BudgetRef}
use model_gateway.Core.Errors.{Error, code_of}
use model_gateway.Core.Catalog.{RoutingKey, Deployment, TokenUsage, cost_for}
use model_gateway.Core.Identity.{Principal}
use model_gateway.Core.Snapshot.{Snapshot}
use model_gateway.Core.Snapshot.Lookups
use model_gateway.Core.Trust.{class_public}
use model_gateway.Gateway.{
  Request, StageTiming, UsageEvent, Reason, unexplained, redacted, classified, AuditEvent, Gate,
  used, audited, noted,
}
use model_gateway.Pii.{Bytes}
use model_gateway.Policy.{Netip}

-- Result
pub record Answer : Type 0 where
  pub status_code : ℕ
  pub body : Bytes
  pub principal : Principal
  pub deployment : String
  pub route : RoutingKey
  pub usage : TokenUsage
  pub stages : List StageTiming

-- The zero values.
abbrev pub no_usage : TokenUsage
no_usage = record { input = pos 0; cached_input = pos 0; cache_write = pos 0; output = pos 0 }

abbrev pub no_deployment : Deployment
no_deployment = record {
  id = "";
  key = record { base_model = ""; adapter_id = "" };
  provider = "";
  endpoint = "";
  region = "";
  trust_tier = 0;
  credential_ref = "";
  weight = 0;
  shadow_percent = 0;
  cost = record {
    input_per_1k = pos 0;
    output_per_1k = pos 0;
    cached_input_per_1k = pos 0;
    cache_write_per_1k = pos 0;
  };
  capabilities = [];
}

abbrev pub nobody : Principal
nobody = record {
  key_id = "";
  tenant = "";
  org = "";
  team = "";
  user = "";
  app = "";
  roles = [];
  models = record { allow_all = false; names = [] };
  budgets = [];
  default_class = "";
  min_trust_tier = 0;
  limits = record { requests_per_minute = 0; tokens_per_minute = 0; max_concurrent = 0 };
  deprecated = false;
  not_after = 0;
}

abbrev pub unanswered : Answer
unanswered = record {
  status_code = 0;
  body = [];
  principal = nobody;
  deployment = "";
  route = record { base_model = ""; adapter_id = "" };
  usage = no_usage;
  stages = [];
}

-- budgetIDs
unfoldable pub budget_ids : List BudgetRef → List String
budget_ids refs = map (λ r. r.id) refs

module _ {net : Netip} (snap : Snapshot) (req : Request net) where
  -- The event that emitUsage sends.
  unfoldable pub usage_event : Answer → Deployment → Bool → Option Error → UsageEvent
  usage_event a d stream error = record {
    request_id = req.meta.request_id;
    tenant = a.principal.tenant;
    key_id = a.principal.key_id;
    tier = Lookups.tier snap a.principal.tenant;
    deployment = a.deployment;
    route = a.route;
    provider = d.provider;
    stream = stream;
    shadow = none;
    usage = a.usage;
    cost = cost_for d.cost a.usage;
    price = cost_for d.cost a.usage;
    outcome = code_of error;
    stages = a.stages;
    snapshot_version = (Lookups.global_version snap).number;
    budgets = budget_ids a.principal.budgets;
  }

  -- auditable
  unfoldable pub auditable : Principal → ℕ → Option Error → String × Reason
  auditable p redactions (some e) = (req.meta.endpoint, unexplained)
  auditable p redactions none =
      if ltb 0 redactions
      then ("pii.redact", redacted redactions)
      else if not (p.default_class == "") && not (p.default_class == class_public)
      then (req.meta.endpoint, classified p.default_class)
      else ("", unexplained)

  -- The event that emitAudit sends, but for the parts it forms of others.
  unfoldable pub audit_event : Answer → String × Reason → Option Error → AuditEvent
  audit_event a (action, reason) error = record {
    request_id = req.meta.request_id;
    tenant = a.principal.tenant;
    actor = a.principal.key_id;
    action = action;
    resource = if a.deployment == "" then req.meta.model else a.deployment;
    outcome = code_of error;
    reason = reason;
    snapshot_version = (Lookups.global_version snap).number;
  }

  -- emitAudit
  unfoldable pub emit_audit : {F W : Type 0} → Answer → ℕ → Option Error → Gate F W → Gate F W
  emit_audit a redactions error g =
      let (action, reason) = auditable a.principal redactions error in
      if action == "" then g else noted g g.world (audited (audit_event a (action, reason) error))

  -- emit, the function that Handle and HandleStream call on each exit; emitUsage comes first.
  unfoldable pub emit :
      {F W : Type 0} → Answer → Deployment → Bool → ℕ → Option Error → Gate F W → Gate F W
  emit a d stream redactions error g =
      emit_audit a redactions error (noted g g.world (used (usage_event a d stream error)))
