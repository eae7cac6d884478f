-- ===== src/Router/Selection.antt =====
-- dataplane/internal/router/router.go: Select. The health of a deployment is read at a time that the
-- clock gives, the n-th candidate's at `clock n`; the registry of providers is a parameter.
pub mod Eligible
pub mod Order
pub mod Trusted
pub mod Tests
use model_gateway.Common.{
  ℕ, zero, suc, ◌/◌, String, String_comparable, Bool, true, false, not, ◌&&◌, ◌||◌, List, [], ◌∷◌,
  ◌++◌, Option, none, some, ltb, eqb, if◌then◌else◌, contains, Map, lookup, insert, any, ◌==◌,
}
use model_gateway.Common.Int.{ℤ, pos, ltb_ℤ, ◌-ℤ◌, quot, wrap64}
use model_gateway.Core.Errors.{
  Error, Result, ok, err, model_not_found, no_candidates, trust_tier_denied, endpoint_unsupported,
  newf, text, number,
}
use model_gateway.Core.Trust.{at_least}
use model_gateway.Core.Catalog.{RoutingKey, Deployment, TokenUsage, cost_for, serving, supports}
use model_gateway.Core.Snapshot.{Snapshot}
use model_gateway.Core.Snapshot.Lookups.{resolve_alias, deployments}
use model_gateway.Router.Breaker.{Breaker}
use model_gateway.Router.Floats.{Floats}
use model_gateway.Router.Health.{Health, new_health, score}

pub data Objective : Type 0 where
  balanced lowest_latency lowest_cost : Objective

pub record Candidate (F : Type 0) : Type 0 where
  pub deployment : Deployment
  pub score : F
  pub health : F

-- The router's configuration, and the maps that it fills as deployments are met.
pub record Router (F : Type 0) : Type 0 where
  pub max_attempts : ℕ
  pub backoff : ℕ
  pub fresh_breaker : Breaker
  pub half_life : ℕ
  pub breakers : Map String Breaker
  pub health : Map String (Health F)

pub record SelectionInput : Type 0 where
  pub snapshot : Snapshot
  pub tenant : String
  pub model : String
  pub endpoint : String
  pub min_trust_tier : ℕ
  pub required : List String
  pub objective : Objective
  pub region : String
  pub reference_tokens : ℤ

-- The endpoints that a provider serves, if the registry has it.
abbrev pub Providers : Type 0
Providers = String → Option (List String)

abbrev pub serves : Option (List String) → String → Bool
serves none endpoint = false
serves (some endpoints) endpoint = contains endpoints endpoint

-- How far a deployment got through the guards of the loop.
pub data Reach : Type 0 where
  found in_service in_tier eligible : Reach

unfoldable pub reach : Providers → SelectionInput → Deployment → Reach
reach providers i d =
    if not (serving d)
    then found
    else if not (at_least d.trust_tier i.min_trust_tier)
    then in_service
    else if not (supports d i.required)
    then in_tier
    else if not (serves (providers d.provider) i.endpoint)
    then in_tier
    else eligible

-- The flags sawAny, sawServing and sawTier.
pub record Seen : Type 0 where
  pub any : Bool
  pub serving : Bool
  pub tier : Bool

abbrev pub note : Reach → Seen → Seen
note found s = record s { any = true }
note in_service s = record s { any = true; serving = true }
note in_tier s = record { any = true; serving = true; tier = true }
note eligible s = record { any = true; serving = true; tier = true }

abbrev pub unseen : Seen
unseen = record { any = false; serving = false; tier = false }

-- The deployments of the targets, in the order of the two loops.
unfoldable pub offered : Snapshot → List RoutingKey → List Deployment
offered s [] = []
offered s (t ∷ ts) = deployments s t ++ offered s ts

-- referenceUsage
unfoldable pub reference_usage : ℤ → TokenUsage
reference_usage tokens =
    let n = if ltb_ℤ (pos 0) tokens then tokens else pos 1_000 in
    record { input = n; cached_input = pos 0; cache_write = pos 0; output = quot n 4 }

-- selectionError
unfoldable pub selection_error : String → ℕ → Seen → Error
selection_error model tier s =
    if not s.any
    then newf model_not_found "no model named %q" (text model ∷ [])
    else if not s.serving
    then newf no_candidates "no deployment of %q is serving traffic" (text model ∷ [])
    else if not s.tier
    then newf trust_tier_denied "no deployment of %q meets the required trust tier %s"
        (text model ∷ number tier ∷ [])
    else newf endpoint_unsupported
        "%q is not served on this endpoint with the required capabilities" (text model ∷ [])

module _ {F : Type 0} (fl : Floats F) where
  -- healthFor
  unfoldable pub health_for : Router F → String → Router F × Health F
  health_for r id = elim (lookup id r.health) [
    | some h ↦ (r, h)
    | none ↦ (
      record r { health = insert id (new_health fl r.half_life) r.health },
      new_health fl r.half_life,
    )
  ]

  -- The loops of Select, from the n-th candidate on.
  unfoldable pub collect :
      Providers
      → SelectionInput
      → (ℕ → ℕ)
      → ℕ
      → Router F
      → Seen
      → List Deployment
      → (Router F × Seen) × List (Candidate F)
  collect providers i clock n r s [] = ((r, s), [])
  collect providers i clock n r s (d ∷ ds) = elim (reach providers i d) [
    | eligible ↦
        let (r', h) = health_for r d.id in
        let points = score fl h (clock n) in
        let (state, rest) = collect providers i clock (suc n) r' (note eligible s) ds in
        (state, record { deployment = d; score = points; health = points } ∷ rest)
    | found ↦ collect providers i clock n r (note found s) ds
    | in_service ↦ collect providers i clock n r (note in_service s) ds
    | in_tier ↦ collect providers i clock n r (note in_tier s) ds
  ]

  -- The loop of priceRange after the first candidate.
  widen : TokenUsage → ℤ × ℤ → List (Candidate F) → ℤ × ℤ
  widen usage (low, high) [] = (low, high)
  widen usage (low, high) (c ∷ cs) =
      let price = cost_for c.deployment.cost usage in
      widen usage (if ltb_ℤ price low then price else low, if ltb_ℤ high price then price else high)
        cs

  -- priceRange
  unfoldable pub price_range : List (Candidate F) → ℤ → ℤ × ℤ
  unfolding widen
  price_range [] tokens = (pos 0, pos 0)
  price_range (c ∷ cs) tokens =
      let usage = reference_usage tokens in
      let price = cost_for c.deployment.cost usage in widen usage (price, price) cs

  -- The weights of cost and of locality.
  unfoldable pub objective_weights : Objective → F × F
  objective_weights lowest_cost = (fl.decimal 30 100, fl.decimal 5 100)
  objective_weights lowest_latency = (fl.decimal 0 1, fl.decimal 20 100)
  objective_weights balanced = (fl.decimal 15 100, fl.decimal 10 100)

  -- The body of the loop of applyObjective.
  unfoldable pub rescored : SelectionInput → ℤ × ℤ → Candidate F → Candidate F
  rescored i (cheapest, dearest) c =
      let price = cost_for c.deployment.cost (reference_usage i.reference_tokens) in
      let price_score =
        if ltb_ℤ cheapest dearest
        then fl.minus (fl.decimal 1 1) (
            fl.over (fl.minus (fl.of_int price) (fl.of_int cheapest))
              (fl.of_int (wrap64 (dearest -ℤ cheapest))))
        else fl.decimal 1 1 in
      let locality_score =
        if i.region == "" || c.deployment.region == i.region
        then fl.decimal 1 1
        else fl.decimal 0 1 in
      let (cost_weight, locality_weight) = objective_weights i.objective in
      record c {
        score = fl.times c.health (
            fl.plus (fl.plus (fl.decimal 1 1) (fl.times cost_weight price_score))
              (fl.times locality_weight locality_score));
      }

  unfoldable pub rescore_all : SelectionInput → ℤ × ℤ → List (Candidate F) → List (Candidate F)
  rescore_all i range [] = []
  rescore_all i range (c ∷ cs) = rescored i range c ∷ rescore_all i range cs

  -- applyObjective
  unfoldable pub apply_objective : List (Candidate F) → SelectionInput → List (Candidate F)
  unfolding rescore_all
  apply_objective cs i = rescore_all i (price_range cs i.reference_tokens) cs

  -- slices.SortStableFunc by score, the greatest first: each candidate goes behind those that it
  -- does not strictly exceed.
  unfoldable pub place : Candidate F → List (Candidate F) → List (Candidate F)
  place c [] = c ∷ []
  place c (x ∷ xs) =
      let rest = place c xs in if fl.greater x.score c.score then x ∷ rest else c ∷ x ∷ xs

  unfoldable pub by_score : List (Candidate F) → List (Candidate F)
  by_score [] = []
  by_score (c ∷ cs) = place c (by_score cs)

  -- drawWeight
  unfoldable pub draw_weight : Candidate F → F
  draw_weight c = fl.times (fl.of_int (pos c.deployment.weight)) c.health

  -- weightsDiffer, against the first weight.
  unfoldable pub weights_differ : ℕ → List (Candidate F) → Bool
  weights_differ first [] = false
  weights_differ first (c ∷ cs) =
      let rest = weights_differ first cs in if eqb c.deployment.weight first then rest else true

  total_weight : F → List (Candidate F) → F
  total_weight sum [] = sum
  total_weight sum (c ∷ cs) = total_weight (fl.plus sum (draw_weight c)) cs

  -- The loop of promote that finds the winner, and moves it in front of those passed over.
  winner_first : F → F → List (Candidate F) → List (Candidate F) → List (Candidate F)
  winner_first target running passed [] = passed
  winner_first target running passed (c ∷ cs) =
      let now = fl.plus running (draw_weight c) in
      let rest = winner_first target now (passed ++ c ∷ []) cs in
      if fl.greater now target then c ∷ passed ++ cs else rest

  -- promote
  unfoldable pub promote : List (Candidate F) → F → List (Candidate F)
  unfolding total_weight winner_first
  promote [] draw = []
  promote (c ∷ []) draw = c ∷ []
  promote (c ∷ d ∷ cs) draw =
      let all = c ∷ d ∷ cs in
      let total = total_weight (fl.decimal 0 1) all in
      if not (weights_differ c.deployment.weight (d ∷ cs))
      then all
      else if fl.at_most total (fl.decimal 0 1)
      then all
      else winner_first (fl.times draw total) (fl.decimal 0 1) [] all

  unfoldable pub select_from :
      SelectionInput
      → F
      → (Router F × Seen) × List (Candidate F)
      → Router F × Result (List (Candidate F))
  select_from i draw ((r, s), []) = (r, err (selection_error i.model i.min_trust_tier s))
  select_from i draw ((r, s), c ∷ cs) =
      (r, ok (promote (by_score (apply_objective (c ∷ cs) i)) draw))

  -- Select
  unfoldable pub select :
      Router F → Providers → (ℕ → ℕ) → F → SelectionInput → Router F × Result (List (Candidate F))
  unfolding select_from
  select r providers clock draw i =
      let targets = resolve_alias i.snapshot i.tenant i.model in
      select_from i draw (collect providers i clock 0 r unseen (offered i.snapshot targets))
