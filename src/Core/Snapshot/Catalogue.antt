-- ===== src/Core/Snapshot/Catalogue.antt =====
-- What a global layer that NewGlobalLayer accepts holds.
use model_gateway.Common.{
  append_nil, append_move, String, String_comparable, ◌≡◌, refl, ap, sym, subst, ◌∙◌, Map,
  Comparable, ◌≤◌, ◌⊎◌, inl, inr, Bool, true, false, ◌&&◌, List, [], ◌∷◌, ◌++◌, Option, none, some,
  if◌then◌else◌, filter, All, All-append, filter-append, lookup, insert, lookup-insert, ◌==◌, arith,
  Bool-cases, Option-cases,
}
use model_gateway.Core.Errors.{ok, bind-ok}
use model_gateway.Core.Trust.{valid}
use model_gateway.Core.Catalog.{
  RoutingKey, RoutingKey_comparable, is_adapter, Deployment, shadowing,
}
use model_gateway.Core.Snapshot.{GlobalLayer, or_empty, add_deployment, add_deployments}

-- What the loop checks of a deployment.
pub record IsValid (d : Deployment) : Type 0 where
  pub named : (d.id == "") ≡ false
  pub based : (d.key.base_model == "") ≡ false
  pub trusted : valid d.trust_tier ≡ true
  pub weighed : d.weight ≤ 100
  pub share : d.shadow_percent ≤ 100
  pub shadowed : (d.shadow_percent ≡ 0) ⊎ (is_adapter d.key ≡ true)

-- The first deployment of an id.
abbrev pub by_id : String → List Deployment → Option Deployment
by_id id [] = none
by_id id (d ∷ ds) = if d.id == id then some d else by_id id ds

-- The indexes of a layer agree with a list of deployments.
pub record Indexes (ds : List Deployment) (g : GlobalLayer) : Type 0 where
  pub every : All IsValid ds
  pub routes : (k : RoutingKey) → or_empty (lookup k g.by_route) ≡ filter (λ d. d.key == k) ds
  pub mirrors :
      (m : String)
      → or_empty (lookup m g.shadows) ≡ filter (λ d. shadowing d && d.key.base_model == m) ds
  pub ids : (id : String) → lookup id g.deployments ≡ by_id id ds

by_id-append :
    (id : String) (ds : List Deployment) (d : Deployment)
    → by_id d.id ds ≡ none
    → by_id id (ds ++ d ∷ []) ≡ (if d.id == id then some d else by_id id ds)
by_id-append id [] d fresh = ground arith
by_id-append id (e ∷ ds) d fresh = ground (
  arith,
  by_id-append id ds d (ground arith),
  String_comparable.same_iff e.id id,
  String_comparable.same_iff d.id id,
  String_comparable.same_iff e.id d.id,
)

add_deployment-IsValid :
    (g g' : GlobalLayer) (d : Deployment) → add_deployment g d ≡ ok g' → IsValid d
unfolding add_deployment
add_deployment-IsValid g g' d e = ground arith

-- The state after a deployment is accepted.
record Added (g g' : GlobalLayer) (d : Deployment) : Type 0 where
  fresh : lookup d.id g.deployments ≡ none
  deployments : g'.deployments ≡ insert d.id d g.deployments
  by_route : g'.by_route ≡ insert d.key (or_empty (lookup d.key g.by_route) ++ d ∷ []) g.by_route
  shadows : g'.shadows ≡ (
      if shadowing d
      then insert d.key.base_model
          (or_empty (lookup d.key.base_model g.shadows) ++ d ∷ [])
          g.shadows
      else g.shadows)

add_deployment-Added :
    (g g' : GlobalLayer) (d : Deployment) → add_deployment g d ≡ ok g' → Added g g' d
unfolding add_deployment
add_deployment-Added g g' d e = ground (arith, Option-cases (lookup d.id g.deployments))

-- Appending to one key's list leaves the others'.
or_empty-lookup-insert :
    {K V : Type 0} ⦃c : Comparable K⦄ (m : Map K (List V)) (k j : K) (v : V)
    → or_empty (lookup j (insert k (or_empty (lookup k m) ++ v ∷ []) m))
      ≡ or_empty (lookup j m) ++ (if k == j then v ∷ [] else [])
or_empty-lookup-insert ⦃c⦄ m k j v =
    rw (lookup-insert k j (or_empty (lookup k m) ++ v ∷ []) m) (elim (Bool-cases (k == j)) [
      | inl e ↦ rw e (rw ((c.same_iff k j).0 e) refl)
      | inr e ↦ rw e (sym (append_nil (or_empty (lookup j m))))
    ])

-- What an index by a key of the deployments that pass a test holds.
grown :
    {K : Type 0} ⦃c : Comparable K⦄ (index : Deployment → K) (counts : Deployment → Bool)
    (m : Map K (List Deployment)) (ds : List Deployment) (d : Deployment) (j : K)
    → or_empty (lookup j m) ≡ filter (λ x. counts x && index x == j) ds
    → or_empty (
        lookup j
          (if counts d then insert (index d) (or_empty (lookup (index d) m) ++ d ∷ []) m else m))
      ≡ filter (λ x. counts x && index x == j) (ds ++ d ∷ [])
grown ⦃c⦄ index counts m ds d j h =
    rw (filter-append (λ x. counts x && index x == j) ds (d ∷ [])) (elim (Bool-cases (counts d)) [
      | inl e ↦ rw e (rw (or_empty-lookup-insert m (index d) j d) (rw h refl))
      | inr e ↦ rw e (rw h (sym (append_nil (filter (λ x. counts x && index x == j) ds))))
    ])

add_deployment-Indexes :
    (ds : List Deployment) (g g' : GlobalLayer) (d : Deployment)
    → add_deployment g d ≡ ok g'
    → Indexes ds g
    → Indexes (ds ++ d ∷ []) g'
add_deployment-Indexes ds g g' d e h =
    let a = add_deployment-Added g g' d e in
    record {
      every = All-append IsValid ds (d ∷ []) h.every (add_deployment-IsValid g g' d e, tt);
      routes = λ k.
          ap (λ m. or_empty (lookup k m)) a.by_route
          ∙ grown (λ x. x.key) (λ x. true) g.by_route ds d k (h.routes k);
      mirrors = λ m.
          ap (λ i. or_empty (lookup m i)) a.shadows
          ∙ grown (λ x. x.key.base_model) shadowing g.shadows ds d m (h.mirrors m);
      ids = λ id. ground (
        arith,
        a.fresh,
        ap (λ m. lookup id m) a.deployments,
        lookup-insert d.id id d g.deployments,
        h.ids id,
        h.ids d.id,
        by_id-append id ds d,
      );
    }

pub add_deployments-Indexes :
    (before : List Deployment) (g g' : GlobalLayer) (ds : List Deployment)
    → add_deployments g ds ≡ ok g'
    → Indexes before g
    → Indexes (before ++ ds) g'
unfolding add_deployments
add_deployments-Indexes before g g' [] e h =
    let same : g ≡ g' = cc in
    subst (λ l. Indexes l g') (sym (append_nil before)) (subst (λ x. Indexes before x) same h)
add_deployments-Indexes before g g' (d ∷ ds) e h =
    let (g1, first, rest) = bind-ok (add_deployment g d) (λ x. add_deployments x ds) g' e in
    subst (λ l. Indexes l g') (append_move before d ds)
      (add_deployments-Indexes (before ++ d ∷ []) g1 g' ds rest
        (add_deployment-Indexes before g g1 d first h))

-- The deployments are added before the aliases.
pub add_deployments-aliases :
    (g g' : GlobalLayer) (ds : List Deployment)
    → add_deployments g ds ≡ ok g'
    → g'.aliases ≡ g.aliases
unfolding add_deployments add_deployment
add_deployments-aliases g g' [] e = let same : g ≡ g' = cc in ap (λ x. x.aliases) (sym same)
add_deployments-aliases g g' (d ∷ ds) e =
    let (g1, first, rest) = bind-ok (add_deployment g d) (λ x. add_deployments x ds) g' e in
    let step : g1.aliases ≡ g.aliases = ground (arith, first) in
    add_deployments-aliases g1 g' ds rest ∙ step
