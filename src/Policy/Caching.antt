-- ===== src/Policy/Caching.antt =====
-- When the cache returns the bundle that the configuration holds.
use model_gateway.Common.{
  ℕ, String, String_comparable, ◌≡◌, refl, ap, subst, sym, ◌∙◌, inl, inr, true, false, List, [],
  none, some, arith, Bool-cases, Option-cases, lookup, insert, lookup-insert, lookup-insert_self,
  same_refl, ◌==◌,
}
use model_gateway.Core.Errors.{Result, ok, Result-cases}
use model_gateway.Policy.{
  Netip, PolicyBundle, Bundle, decode, Cache, probe, keep, answer, get_bundle,
}

module _ (net : Netip) (unmarshal : List ℕ → Result PolicyBundle)
    (raw_of : String → String → List ℕ) where
  -- Every bundle that the cache holds is the one that `raw_of` gives the tenant at the cache's digest.
  pub record Current (c : Cache net unmarshal) : Type 0 where
    pub held :
        (tenant : String) (b : Bundle net)
        → lookup tenant c.bundles ≡ some b
        → decode net unmarshal (raw_of tenant c.digest) ≡ ok b

  keep-Current :
      (c : Cache net unmarshal) (tenant digest : String) (b : Bundle net)
      → decode net unmarshal (raw_of tenant digest) ≡ ok b
      → Current c
      → Current (keep net unmarshal c tenant digest b)
  unfolding keep lookup insert
  keep-Current c tenant digest b d h = elim (Bool-cases (c.digest == digest)) [
    | inl e ↦ rw e (record {
      held = λ t x found. elim (Bool-cases (tenant == t)) [
        | inl q ↦
            let same : b ≡ x = ground (arith, q, lookup-insert tenant t b c.bundles) in
            let here : tenant ≡ t = (String_comparable.same_iff tenant t).0 q in
            let now : c.digest ≡ digest = (String_comparable.same_iff c.digest digest).0 e in
            subst (λ k. decode net unmarshal (raw_of k c.digest) ≡ ok x) here
              (subst (λ g. decode net unmarshal (raw_of tenant g) ≡ ok x) (sym now)
                (d ∙ ap ok same))
        | inr q ↦ h.held t x (ground (arith, q, lookup-insert tenant t b c.bundles))
      ];
    })
    | inr e ↦ rw e (record {
      held = λ t x found. elim (Bool-cases (tenant == t)) [
        | inl q ↦
            let same : b ≡ x = ground (arith, q) in
            let here : tenant ≡ t = (String_comparable.same_iff tenant t).0 q in
            subst (λ k. decode net unmarshal (raw_of k digest) ≡ ok x) here (d ∙ ap ok same)
        | inr q ↦ let impossible : true ≡ false = ground (arith, q) in cc
      ];
    })
  ]

  probe-Current :
      (c : Cache net unmarshal) (tenant digest : String) (b : Bundle net)
      → probe net unmarshal c tenant digest ≡ some b
      → Current c
      → decode net unmarshal (raw_of tenant digest) ≡ ok b
  unfolding probe
  probe-Current c tenant digest b e h = elim (Bool-cases (c.digest == digest)) [
    | inl q ↦
        subst (λ g. decode net unmarshal (raw_of tenant g) ≡ ok b)
          ((String_comparable.same_iff c.digest digest).0 q) (h.held tenant b (ground (arith, q)))
    | inr q ↦ ground (arith, q)
  ]

  -- Where a tenant's bytes are a function of the digest that the caller gives, and the cache holds
  -- only what they decode to, now and once this call has decoded, the cache returns what decoding
  -- those bytes returns, and still holds only such bundles.
  pub get_bundle-Current :
      (c : Cache net unmarshal) (later : Cache net unmarshal → Cache net unmarshal)
      (tenant digest : String)
      → Current c
      → Current (later c)
      → ((get_bundle net unmarshal c later tenant digest (raw_of tenant digest)).1
          ≡ decode net unmarshal (raw_of tenant digest))
        × Current (get_bundle net unmarshal c later tenant digest (raw_of tenant digest)).0
  unfolding get_bundle answer
  get_bundle-Current c later tenant digest h k =
      elim (Option-cases (probe net unmarshal c tenant digest)) [
        | inr (b, e) ↦ rw e (sym (probe-Current c tenant digest b e h), h)
        | inl e ↦ elim (Result-cases (decode net unmarshal (raw_of tenant digest))) [
          | inl (f, q) ↦ rw (e, q) (refl, k)
          | inr (b, q) ↦ rw (e, q) (refl, keep-Current (later c) tenant digest b q k)
        ]
      ]

module _ (net : Netip) (unmarshal : List ℕ → Result PolicyBundle) where
  probe-keep :
      (c : Cache net unmarshal) (tenant digest : String) (b : Bundle net)
      → probe net unmarshal (keep net unmarshal c tenant digest b) tenant digest ≡ some b
  unfolding probe keep
  probe-keep c tenant digest b = elim (Bool-cases (c.digest == digest)) [
    | inl q ↦ rw (q, q) (lookup-insert_self tenant b c.bundles)
    | inr q ↦ rw (q, same_refl digest) (lookup-insert_self tenant b [])
  ]

  -- Bytes that are not cached are decoded.
  pub get_bundle_fresh :
      (c : Cache net unmarshal) (later : Cache net unmarshal → Cache net unmarshal)
      (tenant digest : String) (raw : List ℕ) (b : Bundle net)
      → probe net unmarshal c tenant digest ≡ none
      → decode net unmarshal raw ≡ ok b
      → (get_bundle net unmarshal c later tenant digest raw).1 ≡ ok b
  unfolding get_bundle answer
  get_bundle_fresh c later tenant digest raw b e d = rw (e, d) refl

  -- Once a tenant's bytes that were not cached have been decoded at a digest, the cache answers the
  -- next request of that tenant at the same digest with that bundle, whatever the bytes are by then.
  pub get_bundle_stale :
      (c : Cache net unmarshal) (tenant digest : String) (old changed : List ℕ) (b : Bundle net)
      → probe net unmarshal c tenant digest ≡ none
      → decode net unmarshal old ≡ ok b
      → (get_bundle net unmarshal
          (get_bundle net unmarshal c (λ x. x) tenant digest old).0
          (λ x. x)
          tenant
          digest
          changed).1
        ≡ ok b
  unfolding get_bundle answer
  get_bundle_stale c tenant digest old changed b e d = rw (e, d, probe-keep c tenant digest b) refl
