-- ===== src/Core/Snapshot.antt =====
-- dataplane/internal/core/snapshot.go: the layers of a snapshot, how they are validated and composed,
-- and every lookup that a request makes. A nil layer is `none`.
pub mod Catalogue
pub mod Aliases
pub mod Tenancy
pub mod Lookups
pub mod Access
mod Tests
use model_gateway.Common.{
  ℕ, String, String_comparable, ◌≡◌, Bool, true, false, not, ◌&&◌, ◌||◌, List, [], ◌∷◌, ◌++◌,
  Option, none, some, ltb, eqb, if◌then◌else◌, is_some, filter, contains, Map, lookup, insert, keys,
  values, ◌==◌, List_comparable, ℕ_comparable,
}
use model_gateway.Core.Errors.{
  Arg, Error, Result, ok, err, ◌>>=◌, invalid_request, new, newf, text, number,
}
use model_gateway.Core.Trust.{trust_internal, valid}
use model_gateway.Core.Budget.{BudgetState, BudgetRef, basis_points_per_unit, denies}
use model_gateway.Core.Catalog.{
  RoutingKey, RoutingKey_comparable, is_adapter, Deployment, shadowing, ModelAlias,
}
use model_gateway.Core.Identity.{Principal, is_empty}
use model_gateway.Core.Guardrail.{GuardrailBinding, Phase, inspects}

pub record LayerVersion : Type 0 where
  pub number : ℕ  -- uint64
  pub digest : String

pub record PluginBinding : Type 0 where
  pub port : String
  pub component : String
  pub version : String
  pub config_ref : String

-- The prefix of an API key, and the digest that principals are indexed by, are bytes.
abbrev pub Bytes : Type 0
Bytes = List ℕ

pub record GlobalSpec : Type 0 where
  pub version : LayerVersion
  pub built_at : ℕ
  pub deployments : List Deployment
  pub aliases : List ModelAlias
  pub tenant_prefixes : Map Bytes String
  pub default_plugins : List PluginBinding
  pub policy_bundle_ref : String
  pub default_guardrails : List GuardrailBinding
  pub default_policy : Bytes

pub record TenantSpec : Type 0 where
  pub tenant : String
  pub version : LayerVersion
  pub built_at : ℕ
  pub tier : String
  pub principals : List Principal
  pub keys : Map Bytes String
  pub alias_overrides : List ModelAlias
  pub budgets : List BudgetState
  pub plugins : List PluginBinding
  pub guardrails : List GuardrailBinding
  pub policy : Bytes
  pub min_trust_tier : ℕ

pub record GlobalLayer : Type 0 where
  pub version : LayerVersion
  pub built_at : ℕ
  pub deployments : Map String Deployment
  pub shadows : Map String (List Deployment)
  pub by_route : Map RoutingKey (List Deployment)
  pub aliases : Map String ModelAlias
  pub tenant_by_prefix : Map Bytes String
  pub plugins : Map String PluginBinding
  pub guardrails : List GuardrailBinding
  pub policy : Bytes
  pub policy_bundle_ref : String

pub record TenantLayer : Type 0 where
  pub tenant : String
  pub version : LayerVersion
  pub built_at : ℕ
  pub tier : String
  pub principals : Map String Principal
  pub keys : Map Bytes String
  pub aliases : Map String ModelAlias
  pub budgets : Map String BudgetState
  pub plugins : Map String PluginBinding
  pub guardrails : List GuardrailBinding
  pub policy : Bytes
  pub min_trust_tier : ℕ

-- Reading a slice out of a map gives nil, the empty slice, for a missing key.
abbrev pub or_empty {ℓ} : {A : Type ℓ} → Option (List A) → List A
or_empty none = []
or_empty (some xs) = xs

invalid : String → List Arg → Error
invalid format args = newf invalid_request format args

-- The body of the loop over the deployments in NewGlobalLayer.
unfoldable pub add_deployment : GlobalLayer → Deployment → Result GlobalLayer
unfolding invalid
add_deployment g d =
    if d.id == ""
    then err (new invalid_request "deployment has an empty id")
    else if is_some (lookup d.id g.deployments)
    then err (invalid "duplicate deployment id %q" (text d.id ∷ []))
    else if d.key.base_model == ""
    then err (invalid "deployment %q has no base model" (text d.id ∷ []))
    else if not (valid d.trust_tier)
    then err (invalid "deployment %q has an unset trust tier" (text d.id ∷ []))
    else if ltb 100 d.weight
    then err (invalid "deployment %q weight %d exceeds 100" (text d.id ∷ number d.weight ∷ []))
    else if ltb 100 d.shadow_percent
    then err (
        invalid "deployment %q shadows %d%% of traffic, which is more than there is"
          (text d.id ∷ number d.shadow_percent ∷ []))
    else if ltb 0 d.shadow_percent && not (is_adapter d.key)
    then err (invalid "deployment %q is not an adapter and cannot shadow" (text d.id ∷ []))
    else ok (record g {
      deployments = insert d.id d g.deployments;
      by_route = insert d.key (or_empty (lookup d.key g.by_route) ++ d ∷ []) g.by_route;
      shadows =
          if shadowing d
          then insert d.key.base_model (or_empty (lookup d.key.base_model g.shadows) ++ d ∷ [])
              g.shadows
          else g.shadows;
    })

unfoldable pub add_deployments : GlobalLayer → List Deployment → Result GlobalLayer
add_deployments g [] = ok g
add_deployments g (d ∷ ds) = add_deployment g d >>= λ g'. add_deployments g' ds

check_targets : String → Map RoutingKey (List Deployment) → List RoutingKey → Result (Unit {0})
unfolding invalid
check_targets name routes [] = ok tt
check_targets name routes (t ∷ ts) =
    let rest = check_targets name routes ts in
    if is_empty (or_empty (lookup t routes))
    then err (
        invalid "alias %q targets %q, which has no deployment"
          (text name ∷ text t.base_model ∷ text t.adapter_id ∷ []))
    else rest

-- validateAlias
unfoldable pub validate_alias : ModelAlias → Map RoutingKey (List Deployment) → Result (Unit {0})
unfolding invalid check_targets
validate_alias a routes =
    if a.name == ""
    then err (new invalid_request "alias has an empty name")
    else if is_empty a.targets
    then err (invalid "alias %q has no targets" (text a.name ∷ []))
    else check_targets a.name routes a.targets

unfoldable pub add_aliases : GlobalLayer → List ModelAlias → Result GlobalLayer
add_aliases g [] = ok g
add_aliases g (a ∷ rest) = validate_alias a g.by_route >>= λ _.
    add_aliases (record g { aliases = insert a.name a g.aliases }) rest

-- The loop over the plugin bindings, of either layer; `duplicate` is the error's format.
unfoldable pub add_plugins :
    String → Map String PluginBinding → List PluginBinding → Result (Map String PluginBinding)
unfolding invalid
add_plugins duplicate m [] = ok m
add_plugins duplicate m (p ∷ ps) =
    let rest = add_plugins duplicate (insert p.port p m) ps in
    if is_some (lookup p.port m) then err (invalid duplicate (text p.port ∷ [])) else rest

-- The layer that NewGlobalLayer starts to fill.
abbrev pub empty_global : GlobalSpec → GlobalLayer
empty_global spec = record {
  version = spec.version;
  built_at = spec.built_at;
  deployments = [];
  shadows = [];
  by_route = [];
  aliases = [];
  tenant_by_prefix = spec.tenant_prefixes;
  plugins = [];
  guardrails = spec.default_guardrails;
  policy = spec.default_policy;
  policy_bundle_ref = spec.policy_bundle_ref;
}

-- The three loops of NewGlobalLayer.
unfoldable pub fill_global : GlobalSpec → Result GlobalLayer
fill_global spec = do
  g ← add_deployments (empty_global spec) spec.deployments
  h ← add_aliases g spec.aliases
  plugins ← add_plugins "two default plugins bound to port %q" h.plugins spec.default_plugins
  ok (record h { plugins = plugins })

-- NewGlobalLayer
unfoldable pub new_global_layer : GlobalSpec → Result GlobalLayer
new_global_layer spec =
    if eqb spec.version.number 0
    then err (new invalid_request "global layer version must be non-zero")
    else fill_global spec

-- The loops of NewTenantLayer.
unfoldable pub add_budgets :
    String → Map String BudgetState → List BudgetState → Result (Map String BudgetState)
unfolding invalid
add_budgets tenant m [] = ok m
add_budgets tenant m (b ∷ bs) =
    let rest = add_budgets tenant (insert b.id b m) bs in
    if b.id == ""
    then err (invalid "tenant %q has a budget with no id" (text tenant ∷ []))
    else if ltb basis_points_per_unit b.headroom_basis_points
    then err (invalid "budget %q headroom exceeds 100%%" (text b.id ∷ []))
    else rest

unfoldable pub check_budgets : String → Map String BudgetState → List BudgetRef → Result (Unit {0})
unfolding invalid
check_budgets key_id budgets [] = ok tt
check_budgets key_id budgets (r ∷ rs) =
    let rest = check_budgets key_id budgets rs in
    if not (is_some (lookup r.id budgets))
    then err (invalid "principal %q references unknown budget %q" (text key_id ∷ text r.id ∷ []))
    else rest

unfoldable pub add_principals :
    String
    → Map String BudgetState
    → Map String Principal
    → List Principal
    → Result (Map String Principal)
unfolding invalid
add_principals tenant budgets m [] = ok m
add_principals tenant budgets m (p ∷ ps) =
    let rest = add_principals tenant budgets (insert p.key_id p m) ps in
    if p.key_id == ""
    then err (invalid "tenant %q has a principal with no key id" (text tenant ∷ []))
    else if not (p.tenant == tenant)
    then err (
        invalid "principal %q belongs to tenant %q, not %q"
          (text p.key_id ∷ text p.tenant ∷ text tenant ∷ []))
    else check_budgets p.key_id budgets p.budgets >>= λ _. rest

unfoldable pub check_keys : String → Map String Principal → List String → Result (Unit {0})
unfolding invalid
check_keys tenant principals [] = ok tt
check_keys tenant principals (id ∷ ids) =
    let rest = check_keys tenant principals ids in
    if not (is_some (lookup id principals))
    then err (invalid "tenant %q maps a key to unknown principal %q" (text tenant ∷ text id ∷ []))
    else rest

unfoldable pub add_overrides :
    String → Map String ModelAlias → List ModelAlias → Result (Map String ModelAlias)
unfolding invalid
add_overrides tenant m [] = ok m
add_overrides tenant m (a ∷ rest) =
    let after = add_overrides tenant (insert a.name a m) rest in
    if a.name == "" || is_empty a.targets
    then err (invalid "tenant %q has a malformed alias override" (text tenant ∷ []))
    else after

-- The five loops of NewTenantLayer.
unfoldable pub fill_tenant : TenantSpec → Result TenantLayer
fill_tenant spec = do
  budgets ← add_budgets spec.tenant [] spec.budgets
  principals ← add_principals spec.tenant budgets [] spec.principals
  _ ← check_keys spec.tenant principals (values spec.keys)
  aliases ← add_overrides spec.tenant [] spec.alias_overrides
  plugins ← add_plugins "tenant %q binds two plugins to port %q" [] spec.plugins
  ok (record {
    tenant = spec.tenant;
    version = spec.version;
    built_at = spec.built_at;
    tier = spec.tier;
    principals = principals;
    keys = spec.keys;
    aliases = aliases;
    budgets = budgets;
    plugins = plugins;
    guardrails = spec.guardrails;
    policy = spec.policy;
    min_trust_tier = spec.min_trust_tier;
  })

-- NewTenantLayer
unfoldable pub new_tenant_layer : TenantSpec → Result TenantLayer
unfolding invalid
new_tenant_layer spec =
    if spec.tenant == ""
    then err (new invalid_request "tenant layer has no tenant id")
    else if eqb spec.version.number 0
    then err (invalid "tenant %q layer version must be non-zero" (text spec.tenant ∷ []))
    else fill_tenant spec

pub record Snapshot : Type 0 where
  pub global : GlobalLayer
  pub tenants : Map String TenantLayer

unfoldable pub index_tenants :
    Map String TenantLayer → List (Option TenantLayer) → Result (Map String TenantLayer)
unfolding invalid
index_tenants m [] = ok m
index_tenants m (none ∷ ts) = err (new invalid_request "snapshot contains a nil tenant layer")
index_tenants m (some t ∷ ts) =
    let rest = index_tenants (insert t.tenant t m) ts in
    if is_some (lookup t.tenant m)
    then err (invalid "two layers for tenant %q" (text t.tenant ∷ []))
    else rest

-- The last loop of Compose, over the tenants; `routed` is the set of the prefixes' tenants.
unfoldable pub check_routed : List String → List String → Result (Unit {0})
unfolding invalid
check_routed routed [] = ok tt
check_routed routed (t ∷ ts) =
    let rest = check_routed routed ts in
    if not (contains routed t)
    then err (invalid "tenant %q has a layer but no key prefix routes to it" (text t ∷ []))
    else rest

-- Compose
unfoldable pub compose : Option GlobalLayer → List (Option TenantLayer) → Result Snapshot
compose none tenants = err (new invalid_request "snapshot needs a global layer")
compose (some global) tenants = do
  by_tenant ← index_tenants [] tenants
  _ ← check_routed (values global.tenant_by_prefix) (keys by_tenant)
  ok (record { global = global; tenants = by_tenant })

-- Snapshot.WithTenantLayer
unfoldable pub with_tenant_layer : Snapshot → Option TenantLayer → Result Snapshot
with_tenant_layer s none = err (new invalid_request "nil tenant layer")
with_tenant_layer s (some layer) = ok (record s { tenants = insert layer.tenant layer s.tenants })

all_some : List TenantLayer → List (Option TenantLayer)
all_some [] = []
all_some (t ∷ ts) = some t ∷ all_some ts

-- Snapshot.WithGlobalLayer
unfoldable pub with_global_layer : Snapshot → Option GlobalLayer → Result Snapshot
unfolding all_some
with_global_layer s global = compose global (all_some (values s.tenants))
