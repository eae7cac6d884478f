-- ===== src/Core/Snapshot/Aliases.antt =====
-- What the aliases of a global layer lead to, and the layer as a whole.
use model_gateway.Common.{
  String, String_comparable, ◌≡◌, refl, ap, subst, inl, inr, false, List, [], ◌∷◌, some, All, Map,
  lookup, insert, lookup-insert, ◌==◌, arith, Bool-cases,
}
use model_gateway.Core.Errors.{ok, bind-ok}
use model_gateway.Core.Identity.{is_empty}
use model_gateway.Core.Catalog.{RoutingKey, RoutingKey_comparable, Deployment, ModelAlias}
use model_gateway.Core.Snapshot.{
  GlobalSpec, GlobalLayer, or_empty, validate_alias, check_targets, add_aliases, add_deployments,
  fill_global, add_plugins, new_global_layer, empty_global,
}
use model_gateway.Core.Snapshot.Catalogue.{
  Indexes, add_deployments-Indexes, add_deployments-aliases,
}

-- A routing key that some deployment serves.
abbrev pub Served : Map RoutingKey (List Deployment) → RoutingKey → Type 0
Served routes t = is_empty (or_empty (lookup t routes)) ≡ false

-- An alias leads somewhere, and everywhere it leads is served.
pub record Leads (routes : Map RoutingKey (List Deployment)) (a : ModelAlias) : Type 0 where
  pub somewhere : is_empty a.targets ≡ false
  pub served : All (Served routes) a.targets

check_targets-Served :
    (name : String) (routes : Map RoutingKey (List Deployment)) (ts : List RoutingKey)
    → check_targets name routes ts ≡ ok tt
    → All (Served routes) ts
unfolding check_targets
check_targets-Served name routes [] e = tt
check_targets-Served name routes (t ∷ ts) e =
    (ground arith, check_targets-Served name routes ts (ground arith))

validate_alias-Leads :
    (a : ModelAlias) (routes : Map RoutingKey (List Deployment))
    → validate_alias a routes ≡ ok tt
    → Leads routes a
unfolding validate_alias
validate_alias-Leads a routes e = record {
  somewhere = ground arith;
  served = check_targets-Served a.name routes a.targets (ground arith);
}

-- Every alias of a layer leads somewhere in that layer.
abbrev pub AllLead : GlobalLayer → Type 0
AllLead g = (name : String) (a : ModelAlias) → lookup name g.aliases ≡ some a → Leads g.by_route a

AllLead-insert :
    (g : GlobalLayer) (a : ModelAlias)
    → Leads g.by_route a
    → AllLead g
    → AllLead (record g { aliases = insert a.name a g.aliases })
AllLead-insert g a here before name b found = elim (Bool-cases (a.name == name)) [
  | inl e ↦
      let same : a ≡ b = ground (arith, e, lookup-insert a.name name a g.aliases) in
      subst (λ x. Leads g.by_route x) same here
  | inr e ↦ before name b (ground (arith, e, lookup-insert a.name name a g.aliases))
]

add_aliases_lem :
    (g h : GlobalLayer) (list : List ModelAlias)
    → add_aliases g list ≡ ok h
    → AllLead g
    → AllLead h × ((ds : List Deployment) → Indexes ds g → Indexes ds h)
unfolding add_aliases
add_aliases_lem g h [] e before =
    let same : g ≡ h = cc in
    (subst (λ x. AllLead x) same before, λ ds i. subst (λ x. Indexes ds x) same i)
add_aliases_lem g h (a ∷ list) e before =
    let g' : GlobalLayer = record g { aliases = insert a.name a g.aliases } in
    let (u, first, rest) = bind-ok (validate_alias a g.by_route) (λ _. add_aliases g' list) h e in
    let step =
      add_aliases_lem g' h list rest
        (AllLead-insert g a (validate_alias-Leads a g.by_route first) before) in
    (
      step.0,
      λ ds i.
          step.1 ds
            (record { every = i.every; routes = i.routes; mirrors = i.mirrors; ids = i.ids }),
    )

-- The configuration that a global layer was built from, and the layer.
pub record Built (spec : GlobalSpec) (g : GlobalLayer) : Type 0 where
  pub catalogue : Indexes spec.deployments g
  pub aliases : AllLead g

starts : (spec : GlobalSpec) → Indexes [] (empty_global spec)
unfolding lookup
starts spec = record { every = tt; routes = λ k. refl; mirrors = λ m. refl; ids = λ id. refl }

leading_at_first : (g : GlobalLayer) → g.aliases ≡ [] → AllLead g
unfolding lookup
leading_at_first g e name a found = ground (arith, ap (λ m. lookup name m) e)

-- A global layer that is accepted holds exactly the deployments of its configuration: each is valid,
-- its index by routing key and its index of shadows list them in catalog order, the index by id finds
-- each of them, and every alias leads to one or more models, each with a deployment.
pub new_global_layer-Built :
    (spec : GlobalSpec) (g : GlobalLayer) → new_global_layer spec ≡ ok g → Built spec g
unfolding new_global_layer fill_global
new_global_layer-Built spec g e =
    let e0 : fill_global spec ≡ ok g = ground arith in
    let (g1, first, e1) = bind-ok (add_deployments (empty_global spec) spec.deployments) _ g e0 in
    let (g2, second, e2) = bind-ok (add_aliases g1 spec.aliases) _ g e1 in
    let (m, third, e3) =
      bind-ok (add_plugins "two default plugins bound to port %q" g2.plugins spec.default_plugins) _
        g e2 in
    let same : record g2 { plugins = m } ≡ g = cc in
    let catalogue =
      add_deployments-Indexes [] (empty_global spec) g1 spec.deployments first (starts spec) in
    let leading = add_aliases_lem g1 g2 spec.aliases second (
      leading_at_first g1
        (add_deployments-aliases (empty_global spec) g1 spec.deployments first)) in
    let all = leading.1 spec.deployments catalogue in
    subst (λ x. Built spec x) same
      (record {
        catalogue = record {
          every = all.every;
          routes = all.routes;
          mirrors = all.mirrors;
          ids = all.ids;
        };
        aliases = leading.0;
      })
