-- ===== src/Core/Snapshot/Tests.antt =====
-- Layers and a snapshot at concrete inputs.
use model_gateway.Common.{
  ℕ_comparable, List_comparable, String_comparable, ◌≡◌, refl, ◌⊎◌, true, false, [], ◌∷◌, none,
  some, is_some, All, Memᴰ, values, lookup, insert,
}
use model_gateway.Common.Int.{pos}
use model_gateway.Core.Errors.{ok}
use model_gateway.Core.Trust.{valid}
use model_gateway.Core.Budget.{BudgetScope, BudgetState}
use model_gateway.Core.Catalog.{
  RoutingKey, RoutingKey_comparable, Cost, Deployment, ModelAlias, is_adapter, shadowing,
}
use model_gateway.Core.Identity.{Principal}
use model_gateway.Core.Snapshot.{
  Bytes, GlobalSpec, TenantSpec, GlobalLayer, TenantLayer, Snapshot, empty_global, new_global_layer,
  fill_global, add_deployments, add_deployment, add_aliases, add_plugins, validate_alias,
  check_targets, new_tenant_layer, fill_tenant, add_budgets, add_principals, check_budgets,
  check_keys, add_overrides, compose, index_tenants, check_routed,
}
use model_gateway.Core.Snapshot.Aliases.{Built, new_global_layer-Built}
use model_gateway.Core.Snapshot.Tenancy.{Closed, new_tenant_layer-Closed}
use model_gateway.Core.Snapshot.Lookups.{principal, budget, denied_budget}
use model_gateway.Core.Snapshot.Access.{
  Sound, compose-Sound, principal-tenant, Clear, Refuses, denied_budget_exact,
}

abbrev free : Cost
free = record {
  input_per_1k = pos 0;
  output_per_1k = pos 0;
  cached_input_per_1k = pos 0;
  cache_write_per_1k = pos 0;
}

abbrev llama : RoutingKey
llama = record { base_model = "llama"; adapter_id = "" }

abbrev llama_east : Deployment
llama_east = record {
  id = "llama-east";
  key = llama;
  provider = "vllm";
  endpoint = "http://east";
  region = "east";
  trust_tier = 3;
  credential_ref = "";
  weight = 100;
  shadow_percent = 0;
  cost = free;
  capabilities = [];
}

abbrev chat : ModelAlias
chat = record { name = "chat"; targets = llama ∷ [] }

abbrev acme_prefix : Bytes
acme_prefix = b'a' ∷ []

abbrev fleet : GlobalSpec
fleet = record {
  version = record { number = 1; digest = "g1" };
  built_at = 0;
  deployments = llama_east ∷ [];
  aliases = chat ∷ [];
  tenant_prefixes = (acme_prefix, "acme") ∷ [];
  default_plugins = [];
  policy_bundle_ref = "";
  default_guardrails = [];
  default_policy = [];
}

abbrev fleet_layer : GlobalLayer
fleet_layer = record (empty_global fleet) {
  deployments = ("llama-east", llama_east) ∷ [];
  by_route = (llama, llama_east ∷ []) ∷ [];
  aliases = ("chat", chat) ∷ [];
}

fleet_built : new_global_layer fleet ≡ ok fleet_layer
unfolding new_global_layer fill_global add_deployments add_deployment add_aliases add_plugins
    validate_alias check_targets lookup insert is_adapter shadowing valid
fleet_built = refl

new_global_layer-Built_example : Built fleet fleet_layer
new_global_layer-Built_example = new_global_layer-Built fleet fleet_layer fleet_built

abbrev alice : Principal
alice = record {
  key_id = "alice";
  tenant = "acme";
  org = "";
  team = "";
  user = "";
  app = "";
  roles = [];
  models = record { allow_all = true; names = [] };
  budgets = record { id = "acme-month"; scope = BudgetScope.org } ∷ [];
  default_class = "";
  min_trust_tier = 0;
  limits = record { requests_per_minute = 0; tokens_per_minute = 0; max_concurrent = 0 };
  deprecated = false;
  not_after = 0;
}

abbrev month : BudgetState
month = record {
  id = "acme-month";
  scope = BudgetScope.org;
  limit_micro_usd = pos 100;
  spent_micro_usd = pos 100;
  hard = true;
  headroom_basis_points = 0;
}

abbrev digest : Bytes
digest = 7 ∷ []

abbrev acme : TenantSpec
acme = record {
  tenant = "acme";
  version = record { number = 1; digest = "t1" };
  built_at = 0;
  tier = "gold";
  principals = alice ∷ [];
  keys = (digest, "alice") ∷ [];
  alias_overrides = [];
  budgets = month ∷ [];
  plugins = [];
  guardrails = [];
  policy = [];
  min_trust_tier = 1;
}

abbrev acme_layer : TenantLayer
acme_layer = record {
  tenant = "acme";
  version = record { number = 1; digest = "t1" };
  built_at = 0;
  tier = "gold";
  principals = ("alice", alice) ∷ [];
  keys = (digest, "alice") ∷ [];
  aliases = [];
  budgets = ("acme-month", month) ∷ [];
  plugins = [];
  guardrails = [];
  policy = [];
  min_trust_tier = 1;
}

acme_built : new_tenant_layer acme ≡ ok acme_layer
unfolding new_tenant_layer fill_tenant add_budgets add_principals check_budgets check_keys
    add_overrides add_plugins lookup insert
acme_built = refl

new_tenant_layer-Closed_example : Closed acme acme_layer
new_tenant_layer-Closed_example = new_tenant_layer-Closed acme acme_layer acme_built

abbrev serving_acme : Snapshot
serving_acme = record { global = fleet_layer; tenants = ("acme", acme_layer) ∷ [] }

composed : compose (some fleet_layer) (some acme_layer ∷ []) ≡ ok serving_acme
unfolding compose index_tenants check_routed lookup insert
composed = refl

compose-Sound_example : Sound serving_acme
compose-Sound_example =
    compose-Sound fleet_layer (some acme_layer ∷ []) serving_acme composed ((acme, acme_built), tt)

found : principal serving_acme "acme" digest ≡ some alice
unfolding principal lookup
found = refl

principal-tenant_example :
    (alice.tenant ≡ "acme")
    × Memᴰ "acme" (values serving_acme.global.tenant_by_prefix)
    × All (λ r. is_some (budget serving_acme alice.tenant r.id) ≡ true) alice.budgets
principal-tenant_example =
    principal-tenant serving_acme "acme" digest alice compose-Sound_example found

denied_budget_exact_example :
    (denied_budget serving_acme alice ≡ none) × All (Clear serving_acme alice.tenant) alice.budgets
    ⊎ (b : BudgetState) × (denied_budget serving_acme alice ≡ some b)
      × Refuses serving_acme alice.tenant b alice.budgets
denied_budget_exact_example =
    denied_budget_exact serving_acme "acme" digest alice compose-Sound_example found
