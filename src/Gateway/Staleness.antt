-- ===== src/Gateway/Staleness.antt =====
-- dataplane/internal/gateway/pipeline.go, applyPolicy, over the cache of dataplane/internal/policy.
mod Tests
use model_gateway.Common.{ℕ, String, ◌≡◌, refl, sym, subst, ap, ◌∙◌, false, List, none, some}
use model_gateway.Core.Errors.{Result, ok}
use model_gateway.Core.Identity.{Principal, is_empty}
use model_gateway.Core.Snapshot.{Snapshot}
use model_gateway.Core.Snapshot.Lookups
use model_gateway.Gateway.{Request, Gate, Services}
use model_gateway.Gateway.Stages.{policy_input, decided, apply_policy}
use model_gateway.Policy.{Netip, PolicyBundle, Bundle, Cache, decode, probe, get_bundle, evaluate}
use model_gateway.Policy.Caching.{get_bundle_fresh, get_bundle_stale}

module _ {F : Type 0} (net : Netip) (unmarshal : List ℕ → Result PolicyBundle)
    (s : Services net (Cache net unmarshal))
    (cached : (c : Cache net unmarshal) (tenant digest : String) (raw : List ℕ)
      → s.policy_for c tenant digest raw
        ≡ get_bundle net unmarshal c (λ x. x) tenant digest raw) where
  -- A tenant with a policy is decided by what the cache answers, and the cache is kept.
  apply_policy-get_bundle :
      (snap : Snapshot) (p : Principal) (req : Request net) (g : Gate F (Cache net unmarshal))
      (b : Bundle net)
      → is_empty (Lookups.policy snap p.tenant) ≡ false
      → (get_bundle net unmarshal g.world
          (λ x. x)
          p.tenant
          (Lookups.global_version snap).digest
          (Lookups.policy snap p.tenant)).1
        ≡ ok b
      → ((apply_policy s snap p req g).1
          ≡ decided s snap p req (evaluate net b (policy_input s snap p req)))
        × ((apply_policy s snap p req g).0.world
            ≡ (get_bundle net unmarshal g.world
                (λ x. x)
                p.tenant
                (Lookups.global_version snap).digest
                (Lookups.policy snap p.tenant)).0)
  unfolding apply_policy
  apply_policy-get_bundle snap p req g b ne h =
      let asked =
        cached g.world p.tenant (Lookups.global_version snap).digest
          (Lookups.policy snap p.tenant) in
      let same = ap (λ r. r.1) asked ∙ h in simp (ne, same) (refl, ap (λ r. r.0) asked)

  -- The defect: where the policy service is the cache, and a tenant's policy was decoded under some
  -- snapshot, a request under another snapshot in which that tenant's policy has changed, while the
  -- digest of the global layer has not, is decided by the old policy.
  pub apply_policy_stale :
      (old changed : Snapshot) (p : Principal) (first next : Request net)
      (g : Gate F (Cache net unmarshal)) (b : Bundle net)
      → is_empty (Lookups.policy old p.tenant) ≡ false
      → is_empty (Lookups.policy changed p.tenant) ≡ false
      → (Lookups.global_version old).digest ≡ (Lookups.global_version changed).digest
      → probe net unmarshal g.world p.tenant (Lookups.global_version old).digest ≡ none
      → decode net unmarshal (Lookups.policy old p.tenant) ≡ ok b
      → (apply_policy s changed p next (apply_policy s old p first g).0).1
        ≡ decided s changed p next (evaluate net b (policy_input s changed p next))
  apply_policy_stale old changed p first next g b ne ne' same new d =
      let digest = (Lookups.global_version old).digest in
      let raw = Lookups.policy old p.tenant in
      let fresh = get_bundle_fresh net unmarshal g.world (λ x. x) p.tenant digest raw b new d in
      let first_time = apply_policy-get_bundle old p first g b ne fresh in
      let stale =
        get_bundle_stale net unmarshal g.world p.tenant digest raw (Lookups.policy changed p.tenant)
          b new d in
      let Answers : Cache net unmarshal → String → Type 0 = λ c at.
        (get_bundle net unmarshal c (λ x. x) p.tenant at (Lookups.policy changed p.tenant)).1
        ≡ ok b in
      (apply_policy-get_bundle changed p next (apply_policy s old p first g).0 b ne' (
        subst (Answers (apply_policy s old p first g).0.world) same
          (subst (λ c. Answers c digest) (sym first_time.1) stale))).0
