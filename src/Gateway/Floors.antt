-- ===== src/Gateway/Floors.antt =====
-- dataplane/internal/gateway/pipeline.go: what a policy can do to the tier that a request requires.
use model_gateway.Common.{
  String_comparable, ◌≤◌, ◌≡◌, refl, subst, inl, inr, arith, Bool-cases, Option-cases,
}
use model_gateway.Core.Errors.{Result, ok, err, Result-cases}
use model_gateway.Core.Identity.{Principal, is_empty, permits}
use model_gateway.Core.Snapshot.{Snapshot}
use model_gateway.Core.Snapshot.Lookups
use model_gateway.Gateway.{Request, Gate, Services}
use model_gateway.Gateway.Stages.{
  stamped, policy_input, decided, apply_policy, limited, affordable, admit, wanted,
}
use model_gateway.Policy.{Netip, Decision, evaluate}

-- What admission keeps of the principal and the request, and the floor that routing then has.
pub record Raised {W : Type 0} {net : Netip} (s : Services net W) (snap : Snapshot) (p : Principal)
    (req : Request net) (p' : Principal) (req' : Request net) : Type 0 where
  pub same_tenant : p'.tenant ≡ p.tenant
  pub same_key : p'.key_id ≡ p.key_id
  pub same_body : req'.body ≡ req.body
  pub floor_of_key : p.min_trust_tier ≤ (wanted s snap p' req').min_trust_tier
  pub floor_of_tenant :
      Lookups.min_trust_tier snap p.tenant ≤ (wanted s snap p' req').min_trust_tier

module _ {W : Type 0} {net : Netip} (s : Services net W) (snap : Snapshot) where
  abbrev Only : Principal → Request net → Result (Principal × Request net) → Type 0
  Only p req (err e) = Unit
  Only p req (ok (p', req')) = Raised s snap p req p' req'

  Raised-same : (p : Principal) (req : Request net) → Raised s snap p req p req
  unfolding wanted
  Raised-same p req = record {
    same_tenant = refl;
    same_key = refl;
    same_body = refl;
    floor_of_key = ground arith;
    floor_of_tenant = ground arith;
  }

  decided-Only :
      (p : Principal) (req : Request net) (d : Decision) → Only p req (decided s snap p req d)
  unfolding decided stamped wanted
  decided-Only p req d = elim (Bool-cases d.allowed) [
    | inr q ↦ simp q tt
    | inl q ↦ simp q (record {
      same_tenant = refl;
      same_key = refl;
      same_body = refl;
      floor_of_key = ground arith;
      floor_of_tenant = ground arith;
    })
  ]

  module _ {F : Type 0} where
    apply_policy-Only :
        (p : Principal) (req : Request net) (g : Gate F W)
        → Only p req (apply_policy s snap p req g).1
    unfolding apply_policy
    apply_policy-Only p req g = elim (Bool-cases (is_empty (Lookups.policy snap p.tenant))) [
      | inl q ↦ rw q (Raised-same p req)
      | inr q ↦
          elim (Result-cases
            (s.policy_for g.world p.tenant (Lookups.global_version snap).digest
              (Lookups.policy snap p.tenant)).1) [
                | inl (e, z) ↦ rw q (simp z tt)
                | inr (b, z) ↦
                    rw q (simp z (decided-Only p req (evaluate net b (policy_input s snap p req))))
              ]
    ]

    affordable-Only :
        (p : Principal) (req : Request net) (asked : Gate F W × Result (Principal × Request net))
        → Only p req asked.1
        → Only p req (affordable s snap asked).1
    unfolding affordable limited
    affordable-Only p req (g, err e) h = tt
    affordable-Only p req (g, ok (p', req')) h =
        elim (Option-cases (Lookups.denied_budget snap p')) [
          | inr (b, q) ↦ rw (q, affordable) tt
          | inl q ↦
              rw (q, affordable)
                (elim (Bool-cases (s.admit g.world p').1.allowed) [
                  | inl z ↦ simp z h
                  | inr z ↦ simp z tt
                ])
        ]

    admit-Only :
        (p : Principal) (req : Request net) (g : Gate F W) → Only p req (admit s snap p req g).1
    unfolding admit
    admit-Only p req g = elim (Bool-cases (permits p.models req.meta.model)) [
      | inr q ↦ rw q tt
      | inl q ↦
          rw q (affordable-Only p req (apply_policy s snap p req g) (apply_policy-Only p req g))
    ]

    -- Where a request is admitted, the tenant, the key and the body are those of the request, and the
    -- tier that routing then requires is at least the one set on the key before the policy ran, and at
    -- least the tenant's: no policy lowers either.
    pub admit-Raised :
        (p p' : Principal) (req req' : Request net) (g : Gate F W)
        → (admit s snap p req g).1 ≡ ok (p', req')
        → Raised s snap p req p' req'
    admit-Raised p p' req req' g e = subst (Only p req) e (admit-Only p req g)
