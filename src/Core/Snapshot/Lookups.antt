-- ===== src/Core/Snapshot/Lookups.antt =====
-- dataplane/internal/core/snapshot.go: the lookups of a composed snapshot. Each resolves the tenant
-- first and falls back to the global layer.
use model_gateway.Common.{
  ℕ_comparable, List_comparable, ℕ, String, String_comparable, List, [], ◌∷◌, ◌++◌, Option, none,
  some, if◌then◌else◌, filter, lookup, keys, values,
}
use model_gateway.Core.Trust.{trust_internal}
use model_gateway.Core.Budget.{BudgetState, BudgetRef, denies}
use model_gateway.Core.Catalog.{RoutingKey, RoutingKey_comparable, Deployment, ModelAlias}
use model_gateway.Core.Identity.{Principal}
use model_gateway.Core.Guardrail.{GuardrailBinding, Phase, inspects}
use model_gateway.Core.Snapshot.{
  LayerVersion, PluginBinding, Bytes, TenantLayer, Snapshot, or_empty,
}

-- Snapshot.GlobalVersion
abbrev pub global_version : Snapshot → LayerVersion
global_version s = s.global.version

tenant_field {ℓ} : {A : Type ℓ} → (TenantLayer → A) → Option TenantLayer → Option A
tenant_field f none = none
tenant_field f (some t) = some (f t)

-- Snapshot.TenantVersion
unfoldable pub tenant_version : Snapshot → String → Option LayerVersion
unfolding tenant_field
tenant_version s tenant = tenant_field (λ t. t.version) (lookup tenant s.tenants)

-- Snapshot.TenantIDs
abbrev pub tenant_ids : Snapshot → List String
tenant_ids s = keys s.tenants

-- Snapshot.DeploymentIDs
abbrev pub deployment_ids : Snapshot → List String
deployment_ids s = keys s.global.deployments

-- Snapshot.TenantForPrefix
abbrev pub tenant_for_prefix : Snapshot → Bytes → Option String
tenant_for_prefix s prefix = lookup prefix s.global.tenant_by_prefix

-- The last two probes of Snapshot.Principal.
abbrev pub principal_of : TenantLayer → Bytes → Option Principal
principal_of layer digest = elim (lookup digest layer.keys) [
  | none ↦ none
  | some id ↦ lookup id layer.principals
]

-- Snapshot.Principal
unfoldable pub principal : Snapshot → String → Bytes → Option Principal
principal s tenant digest = elim (lookup tenant s.tenants) [
  | none ↦ none
  | some layer ↦ principal_of layer digest
]

-- Snapshot.Tier
unfoldable pub tier : Snapshot → String → String
tier s tenant = elim (lookup tenant s.tenants) [ none ↦ "unknown" | some layer ↦ layer.tier ]

-- Snapshot.MinTrustTier
unfoldable pub min_trust_tier : Snapshot → String → ℕ
min_trust_tier s tenant = elim (lookup tenant s.tenants) [
  | none ↦ trust_internal
  | some layer ↦ layer.min_trust_tier
]

-- What the tenant's layer says of a name, if there is a layer and it says anything.
tenant_alias : Option TenantLayer → String → Option ModelAlias
tenant_alias none name = none
tenant_alias (some layer) name = lookup name layer.aliases

global_targets : Option ModelAlias → String → List RoutingKey
global_targets none name = record { base_model = name; adapter_id = "" } ∷ []
global_targets (some a) name = a.targets

-- Snapshot.ResolveAlias
unfoldable pub resolve_alias : Snapshot → String → String → List RoutingKey
unfolding tenant_alias global_targets
resolve_alias s tenant name = elim (tenant_alias (lookup tenant s.tenants) name) [
  | none ↦ global_targets (lookup name s.global.aliases) name
  | some a ↦ a.targets
]

-- Snapshot.Deployments
unfoldable pub deployments : Snapshot → RoutingKey → List Deployment
deployments s key = or_empty (lookup key s.global.by_route)

-- Snapshot.Shadows
unfoldable pub shadows : Snapshot → String → List Deployment
shadows s base_model = or_empty (lookup base_model s.global.shadows)

-- Snapshot.Deployment
unfoldable pub deployment : Snapshot → String → Option Deployment
deployment s id = lookup id s.global.deployments

tenant_plugin : Option TenantLayer → String → Option PluginBinding
tenant_plugin none port = none
tenant_plugin (some layer) port = lookup port layer.plugins

-- Snapshot.PluginBinding
unfoldable pub plugin_binding : Snapshot → String → String → Option PluginBinding
unfolding tenant_plugin
plugin_binding s tenant port = elim (tenant_plugin (lookup tenant s.tenants) port) [
  | none ↦ lookup port s.global.plugins
  | some b ↦ some b
]

tenant_guardrails : Option TenantLayer → List GuardrailBinding
tenant_guardrails none = []
tenant_guardrails (some layer) = layer.guardrails

-- A tenant's own list replaces the fleet's, unless it is empty.
abbrev pub or_default {ℓ} : {A : Type ℓ} → List A → List A → List A
or_default [] fleet = fleet
or_default (x ∷ xs) fleet = x ∷ xs

-- Snapshot.Guardrails
unfoldable pub guardrails : Snapshot → String → Phase → List GuardrailBinding
unfolding tenant_guardrails
guardrails s tenant phase =
    filter (λ b. inspects b phase)
      (or_default (tenant_guardrails (lookup tenant s.tenants)) s.global.guardrails)

layers_guardrails : List TenantLayer → List GuardrailBinding
layers_guardrails [] = []
layers_guardrails (layer ∷ rest) = layer.guardrails ++ layers_guardrails rest

-- Snapshot.AllGuardrails
unfoldable pub all_guardrails : Snapshot → List GuardrailBinding
unfolding layers_guardrails
all_guardrails s = s.global.guardrails ++ layers_guardrails (values s.tenants)

tenant_policy : Option TenantLayer → Bytes
tenant_policy none = []
tenant_policy (some layer) = layer.policy

-- Snapshot.Policy
unfoldable pub policy : Snapshot → String → Bytes
unfolding tenant_policy
policy s tenant = or_default (tenant_policy (lookup tenant s.tenants)) s.global.policy

-- Snapshot.Budget
unfoldable pub budget : Snapshot → String → String → Option BudgetState
budget s tenant id = elim (lookup tenant s.tenants) [
  | none ↦ none
  | some layer ↦ lookup id layer.budgets
]

-- The loop of Snapshot.DeniedBudget over the principal's chain.
unfoldable pub first_denied : Snapshot → String → List BudgetRef → Option BudgetState
first_denied s tenant [] = none
first_denied s tenant (ref ∷ refs) =
    let rest = first_denied s tenant refs in
    elim (budget s tenant ref.id) [ none ↦ rest | some b ↦ if denies b then some b else rest ]

-- Snapshot.DeniedBudget
abbrev pub denied_budget : Snapshot → Principal → Option BudgetState
denied_budget s p = first_denied s p.tenant p.budgets
