-- ===== src/Core/Snapshot/Access.antt =====
-- What the lookups of a composed snapshot promise to authentication and to budget enforcement.
use model_gateway.Common.{
  ℕ_comparable, List_comparable, String, String_comparable, ◌≡◌, ap, subst, ◌∙◌, ◌⊎◌, inl, inr,
  true, false, List, [], ◌∷◌, Option, none, some, is_some, All, Map, lookup, insert, lookup-insert,
  values, keys, ◌==◌, contains→Memᴰ, Memᴰ, arith, Bool-cases, Option-cases,
}
use model_gateway.Core.Errors.{ok, bind-ok}
use model_gateway.Core.Budget.{BudgetState, BudgetRef, denies}
use model_gateway.Core.Identity.{Principal}
use model_gateway.Core.Snapshot.{
  TenantSpec, GlobalLayer, TenantLayer, Bytes, Snapshot, new_tenant_layer, index_tenants,
  check_routed, compose,
}
use model_gateway.Core.Snapshot.Tenancy.{Funded, AllBelong, new_tenant_layer-Closed}
use model_gateway.Core.Snapshot.Lookups.{principal, budget, first_denied, denied_budget}

-- A layer that NewTenantLayer accepted.
abbrev pub Accepted : Option TenantLayer → Type 0
Accepted none = Unit
Accepted (some t) = (spec : TenantSpec) × (new_tenant_layer spec ≡ ok t)

-- The layers of a snapshot stand under their own tenant, are closed, and have a key prefix.
pub record Sound (s : Snapshot) : Type 0 where
  pub own : (id : String) (t : TenantLayer) → lookup id s.tenants ≡ some t → t.tenant ≡ id
  pub closed :
      (id : String) (t : TenantLayer)
      → lookup id s.tenants ≡ some t
      → AllBelong t.tenant t.budgets t.principals
  pub routed :
      (id : String) (t : TenantLayer)
      → lookup id s.tenants ≡ some t
      → Memᴰ id (values s.global.tenant_by_prefix)

-- What the index of the layers holds.
abbrev Indexed : Map String TenantLayer → Type 0
Indexed m =
    (id : String) (t : TenantLayer)
    → lookup id m ≡ some t
    → (t.tenant ≡ id) × AllBelong t.tenant t.budgets t.principals

index_tenants-Indexed :
    (m n : Map String TenantLayer) (ts : List (Option TenantLayer))
    → index_tenants m ts ≡ ok n
    → All Accepted ts
    → Indexed m
    → Indexed n
unfolding index_tenants
index_tenants-Indexed m n [] e a before =
    let same : m ≡ n = cc in subst (λ x. Indexed x) same before
index_tenants-Indexed m n (none ∷ ts) e a before = cc
index_tenants-Indexed m n (some t ∷ ts) e a before =
    index_tenants-Indexed (insert t.tenant t m) n ts (ground arith) a.1 (λ id u found.
      elim (Bool-cases (t.tenant == id)) [
        | inl p ↦
            let same : t ≡ u = ground (arith, p, lookup-insert t.tenant id t m) in
            let own : t.tenant ≡ id = (String_comparable.same_iff t.tenant id).0 p in
            let closed = new_tenant_layer-Closed a.0.0 t a.0.1 in
            subst (λ x. (x.tenant ≡ id) × AllBelong x.tenant x.budgets x.principals) same
              (own, closed.belong)
        | inr p ↦ before id u (ground (arith, p, lookup-insert t.tenant id t m))
      ])

check_routed-Memᴰ :
    (routed ids : List String) → check_routed routed ids ≡ ok tt → All (λ id. Memᴰ id routed) ids
unfolding check_routed
check_routed-Memᴰ routed [] e = tt
check_routed-Memᴰ routed (id ∷ ids) e =
    (contains→Memᴰ routed id (ground arith), check_routed-Memᴰ routed ids (ground arith))

All-keys :
    {V : Type 0} (P : String → Type 0) (m : Map String V) (k : String) (v : V)
    → All P (keys m)
    → lookup k m ≡ some v
    → P k
unfolding lookup
All-keys P [] k v h e = cc
All-keys P ((j, w) ∷ m) k v h e = elim (Bool-cases (j == k)) [
  | inl t ↦ subst P ((String_comparable.same_iff j k).0 t) h.0
  | inr f ↦ All-keys P m k v h.1 (ground (arith, f))
]

-- A snapshot composed of tenant layers that NewTenantLayer accepted is sound: no layer stands under
-- another tenant's id, every principal belongs to its layer's tenant and has its budgets there, and
-- every tenant with a layer has a key prefix routed to it.
pub compose-Sound :
    (g : GlobalLayer) (ts : List (Option TenantLayer)) (s : Snapshot)
    → compose (some g) ts ≡ ok s
    → All Accepted ts
    → Sound s
unfolding compose lookup
compose-Sound g ts s e a =
    let (m, first, e1) = bind-ok (index_tenants [] ts) _ s e in
    let (_, second, e2) = bind-ok (check_routed (values g.tenant_by_prefix) (keys m)) _ s e1 in
    let same : record { global = g; tenants = m } ≡ s = cc in
    let index = index_tenants-Indexed [] m ts first a (λ id t found. ground arith) in
    let routes = check_routed-Memᴰ (values g.tenant_by_prefix) (keys m) second in
    subst (λ x. Sound x) same
      (record {
        own = λ id t found. (index id t found).0;
        closed = λ id t found. (index id t found).1;
        routed =
            λ id t found. All-keys (λ i. Memᴰ i (values g.tenant_by_prefix)) m id t routes found;
      })

Funded-budget :
    (s : Snapshot) (tenant : String) (layer : TenantLayer) (rs : List BudgetRef)
    → lookup tenant s.tenants ≡ some layer
    → All (Funded layer.budgets) rs
    → All (λ r. is_some (budget s tenant r.id) ≡ true) rs
unfolding budget
Funded-budget s tenant layer [] e h = tt
Funded-budget s tenant layer (r ∷ rs) e h =
    (ground (arith, e, h.0), Funded-budget s tenant layer rs e h.1)

-- Authentication never crosses tenants: in a sound snapshot the principal that a key digest finds
-- under a tenant belongs to that tenant, the tenant has a key prefix, and every budget of the
-- principal's chain is found.
pub principal-tenant :
    (s : Snapshot) (tenant : String) (digest : Bytes) (p : Principal)
    → Sound s
    → principal s tenant digest ≡ some p
    → (p.tenant ≡ tenant)
      × Memᴰ tenant (values s.global.tenant_by_prefix)
      × All (λ r. is_some (budget s p.tenant r.id) ≡ true) p.budgets
unfolding principal budget
principal-tenant s tenant digest p sound found = elim (Option-cases (lookup tenant s.tenants)) [
  | inl e ↦ ground (arith, e)
  | inr (layer, e) ↦ elim (Option-cases (lookup digest layer.keys)) [
    | inl q ↦ ground (arith, e, q)
    | inr (id, q) ↦
        let held : lookup id layer.principals ≡ some p = ground (arith, e, q) in
        let own = (sound.closed tenant layer e id p held).0 in
        let mine : p.tenant ≡ tenant = own.mine ∙ sound.own tenant layer e in
        (
          mine,
          sound.routed tenant layer e,
          rw mine (Funded-budget s tenant layer p.budgets e own.funded),
        )
  ]
]

-- A reference that resolves to a budget which does not deny.
abbrev pub Clear : Snapshot → String → BudgetRef → Type 0
Clear s tenant r = (b : BudgetState) × (budget s tenant r.id ≡ some b) × (denies b ≡ false)

-- Whether every reference of a chain resolves.
abbrev pub Resolves : Snapshot → String → List BudgetRef → Type 0
Resolves s tenant rs = All (λ r. is_some (budget s tenant r.id) ≡ true) rs

first_denied-none :
    (s : Snapshot) (tenant : String) (rs : List BudgetRef)
    → Resolves s tenant rs
    → first_denied s tenant rs ≡ none
    → All (Clear s tenant) rs
unfolding first_denied
first_denied-none s tenant [] h e = tt
first_denied-none s tenant (r ∷ rs) h e = elim (Option-cases (budget s tenant r.id)) [
  | inl q ↦ ground (arith, q, h.0)
  | inr (b, q) ↦ ((b, q, ground (arith, q)), first_denied-none s tenant rs h.1 (ground (arith, q)))
]

-- A budget that refuses a request: some reference of the chain resolves to it, and it denies.
pub data Refuses (s : Snapshot) (tenant : String) (b : BudgetState) : List BudgetRef → Type 0 where
  here :
      (r : BudgetRef) (rs : List BudgetRef)
      → budget s tenant r.id ≡ some b
      → denies b ≡ true
      → Refuses s tenant b (r ∷ rs)
  later :
      (r : BudgetRef) (rs : List BudgetRef)
      → Clear s tenant r
      → Refuses s tenant b rs
      → Refuses s tenant b (r ∷ rs)

first_denied-some :
    (s : Snapshot) (tenant : String) (b : BudgetState) (rs : List BudgetRef)
    → Resolves s tenant rs
    → first_denied s tenant rs ≡ some b
    → Refuses s tenant b rs
unfolding first_denied
first_denied-some s tenant b [] h e = cc
first_denied-some s tenant b (r ∷ rs) h e = elim (Option-cases (budget s tenant r.id)) [
  | inl q ↦ ground (arith, q, h.0)
  | inr (c, q) ↦ elim (Bool-cases (denies c)) [
    | inl d ↦
        let same : c ≡ b = ground (arith, q, d) in
        here r rs (q ∙ ap some same) (subst (λ x. denies x ≡ true) same d)
    | inr d ↦ later r rs (c, q, d) (first_denied-some s tenant b rs h.1 (ground (arith, q, d)))
  ]
]

-- For a principal that authentication found in a sound snapshot, budget enforcement is exact: either
-- it reports no budget, and every budget of the chain exists and admits; or it reports one, which is
-- the first of the chain that denies, those before it existing and admitting.
pub denied_budget_exact :
    (s : Snapshot) (tenant : String) (digest : Bytes) (p : Principal)
    → Sound s
    → principal s tenant digest ≡ some p
    → (denied_budget s p ≡ none) × All (Clear s p.tenant) p.budgets
      ⊎ (b : BudgetState) × (denied_budget s p ≡ some b) × Refuses s p.tenant b p.budgets
denied_budget_exact s tenant digest p sound found =
    let (_, _, all) = principal-tenant s tenant digest p sound found in
    elim (Option-cases (denied_budget s p)) [
      | inl e ↦ inl (e, first_denied-none s p.tenant p.budgets all e)
      | inr (b, e) ↦ inr (b, e, first_denied-some s p.tenant b p.budgets all e)
    ]
