-- ===== src/Core/Snapshot/Tenancy.antt =====
-- What a tenant layer that NewTenantLayer accepts holds: no reference in it dangles.
use model_gateway.Common.{
  ℕ_comparable, List_comparable, String, String_comparable, ◌≡◌, refl, subst, inl, inr, true, List,
  [], ◌∷◌, some, is_some, All, Map, lookup, insert, lookup-insert, values, ◌==◌, Comparable, arith,
  Bool-cases,
}
use model_gateway.Core.Errors.{ok, ◌>>=◌, bind-ok}
use model_gateway.Core.Budget.{BudgetState, BudgetRef}
use model_gateway.Core.Identity.{Principal}
use model_gateway.Core.Snapshot.{
  TenantSpec, TenantLayer, Bytes, add_budgets, check_budgets, add_principals, check_keys,
  add_overrides, add_plugins, fill_tenant, new_tenant_layer,
}

-- A budget reference that resolves.
abbrev pub Funded : Map String BudgetState → BudgetRef → Type 0
Funded budgets r = is_some (lookup r.id budgets) ≡ true

-- A principal belongs to the tenant, and the budgets of its chain are the tenant's.
pub record Belongs (tenant : String) (budgets : Map String BudgetState) (p : Principal)
    : Type 0 where
  pub mine : p.tenant ≡ tenant
  pub funded : All (Funded budgets) p.budgets

abbrev pub AllBelong : String → Map String BudgetState → Map String Principal → Type 0
AllBelong tenant budgets m =
    (id : String) (p : Principal)
    → lookup id m ≡ some p
    → Belongs tenant budgets p × (p.key_id ≡ id)

check_budgets-Funded :
    (id : String) (budgets : Map String BudgetState) (rs : List BudgetRef)
    → check_budgets id budgets rs ≡ ok tt
    → All (Funded budgets) rs
unfolding check_budgets
check_budgets-Funded id budgets [] e = tt
check_budgets-Funded id budgets (r ∷ rs) e =
    (ground arith, check_budgets-Funded id budgets rs (ground arith))

AllBelong-insert :
    (tenant : String) (budgets : Map String BudgetState) (m : Map String Principal) (p : Principal)
    → Belongs tenant budgets p
    → AllBelong tenant budgets m
    → AllBelong tenant budgets (insert p.key_id p m)
AllBelong-insert tenant budgets m p here before id q found = elim (Bool-cases (p.key_id == id)) [
  | inl e ↦
      let same : p ≡ q = ground (arith, e, lookup-insert p.key_id id p m) in
      let named : p.key_id ≡ id = (String_comparable.same_iff p.key_id id).0 e in
      subst (λ x. Belongs tenant budgets x × (x.key_id ≡ id)) same (here, named)
  | inr e ↦ before id q (ground (arith, e, lookup-insert p.key_id id p m))
]

-- The checks that one principal passed, and the rest of the loop.
record Passed (tenant : String) (budgets : Map String BudgetState) (m n : Map String Principal)
    (p : Principal) (ps : List Principal) : Type 0 where
  named : (p.tenant == tenant) ≡ true
  funded : check_budgets p.key_id budgets p.budgets ≡ ok tt
  rest : add_principals tenant budgets (insert p.key_id p m) ps ≡ ok n

add_principals-Passed :
    (tenant : String) (budgets : Map String BudgetState) (m n : Map String Principal)
    (p : Principal) (ps : List Principal)
    → add_principals tenant budgets m (p ∷ ps) ≡ ok n
    → Passed tenant budgets m n p ps
unfolding add_principals
add_principals-Passed tenant budgets m n p ps e =
    let chained : (check_budgets p.key_id budgets p.budgets >>= λ _.
    add_principals tenant budgets (insert p.key_id p m) ps)
        ≡ ok n =
      ground arith in
    let (u, first, rest) = bind-ok (check_budgets p.key_id budgets p.budgets) _ n chained in
    record { named = ground arith; funded = first; rest = rest }

add_principals-AllBelong :
    (tenant : String) (budgets : Map String BudgetState) (m n : Map String Principal)
    (ps : List Principal)
    → add_principals tenant budgets m ps ≡ ok n
    → AllBelong tenant budgets m
    → AllBelong tenant budgets n
unfolding add_principals
add_principals-AllBelong tenant budgets m n [] e before =
    let same : m ≡ n = cc in subst (λ x. AllBelong tenant budgets x) same before
add_principals-AllBelong tenant budgets m n (p ∷ ps) e before =
    let passed = add_principals-Passed tenant budgets m n p ps e in
    add_principals-AllBelong tenant budgets (insert p.key_id p m) n ps passed.rest (
      AllBelong-insert tenant budgets m p
        (record {
          mine = (String_comparable.same_iff p.tenant tenant).0 passed.named;
          funded = check_budgets-Funded p.key_id budgets p.budgets passed.funded;
        })
        before)

check_keys-known :
    (tenant : String) (principals : Map String Principal) (ids : List String)
    → check_keys tenant principals ids ≡ ok tt
    → All (λ id. is_some (lookup id principals) ≡ true) ids
unfolding check_keys
check_keys-known tenant principals [] e = tt
check_keys-known tenant principals (id ∷ ids) e =
    (ground arith, check_keys-known tenant principals ids (ground arith))

-- A value that a map holds satisfies what all its values do.
All-lookup :
    {K V : Type 0} ⦃c : Comparable K⦄ (P : V → Type 0) (m : Map K V) (k : K) (v : V)
    → All P (values m)
    → lookup k m ≡ some v
    → P v
unfolding lookup
All-lookup P [] k v h e = cc
All-lookup P ((j, w) ∷ m) k v h e = elim (Bool-cases (j == k)) [
  | inl t ↦ let same : w ≡ v = ground (arith, t) in subst P same h.0
  | inr f ↦ All-lookup P m k v h.1 (ground (arith, f))
]

-- No reference inside the layer dangles.
pub record Closed (spec : TenantSpec) (t : TenantLayer) : Type 0 where
  pub same_tenant : t.tenant ≡ spec.tenant
  pub same_keys : t.keys ≡ spec.keys
  pub belong : AllBelong t.tenant t.budgets t.principals
  pub known :
      (digest : Bytes) (id : String)
      → lookup digest t.keys ≡ some id
      → is_some (lookup id t.principals) ≡ true

-- In a tenant layer that is accepted, every key digest leads to a principal, every principal is
-- listed under its own key id and belongs to the layer's tenant, and every budget of its chain
-- exists in the layer.
pub new_tenant_layer-Closed :
    (spec : TenantSpec) (t : TenantLayer) → new_tenant_layer spec ≡ ok t → Closed spec t
unfolding new_tenant_layer fill_tenant lookup
new_tenant_layer-Closed spec t e =
    let e0 : fill_tenant spec ≡ ok t = ground arith in
    let (budgets, _, e1) = bind-ok (add_budgets spec.tenant [] spec.budgets) _ t e0 in
    let (principals, second, e2) =
      bind-ok (add_principals spec.tenant budgets [] spec.principals) _ t e1 in
    let (_, third, e3) = bind-ok (check_keys spec.tenant principals (values spec.keys)) _ t e2 in
    let (aliases, _, e4) = bind-ok (add_overrides spec.tenant [] spec.alias_overrides) _ t e3 in
    let (plugins, _, e5) =
      bind-ok (add_plugins "tenant %q binds two plugins to port %q" [] spec.plugins) _ t e4 in
    let known = check_keys-known spec.tenant principals (values spec.keys) third in
    let belong =
      add_principals-AllBelong spec.tenant budgets [] principals spec.principals second
        (λ id p found. ground arith) in
    let same : record {
      tenant = spec.tenant;
      version = spec.version;
      built_at = spec.built_at;
      tier = spec.tier;
      principals = principals;
      keys = spec.keys;
      aliases = aliases;
      budgets = budgets;
      plugins = plugins;
      guardrails = spec.guardrails;
      policy = spec.policy;
      min_trust_tier = spec.min_trust_tier;
    }
        ≡ t =
      cc in
    subst (λ x. Closed spec x) same
      (record {
        same_tenant = refl;
        same_keys = refl;
        belong = belong;
        known = λ digest id found.
            All-lookup (λ i. is_some (lookup i principals) ≡ true) spec.keys digest id known found;
      })
