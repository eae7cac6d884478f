-- ===== src/Gateway/Masking.antt =====
-- dataplane/internal/gateway/pipeline.go: what protect makes of a body.
use model_gateway.Common.{
  String_comparable, ◌≡◌, refl, sym, subst, inl, inr, Bool, true, false, not, ◌&&◌, List, [], ◌∷◌,
  Option, none, some, is_some, eqb, arith, Bool-cases, Option-cases, Map,
}
use model_gateway.Core.Errors.{Error, Result, ok, err, Result-cases, new, unavailable, wrapf}
use model_gateway.Core.Catalog.{Deployment}
use model_gateway.Core.Identity.{Principal}
use model_gateway.Gateway.{Request, Gate, Services}
use model_gateway.Gateway.Protect.{
  over, strategy_for, first_error, inspect_deep, kept, masked, protect,
}
use model_gateway.Pii.{Bytes, Match, detect, detect_all, gathered}
use model_gateway.Pii.Transform.{
  Strategy, no_strategy, redact, hash, tokenize, is_none, is_tokenize, Transformed,
  transform_matches,
}
use model_gateway.Policy.{Netip}

-- Whether the NER detector answered.
abbrev pub heard : List (Result (List Match)) → Bool
heard (ok ms ∷ []) = true
heard _ = false

is_none-eq : (how : Strategy) → is_none how ≡ true → how ≡ no_strategy
is_none-eq no_strategy h = refl
is_none-eq redact h = let no : false ≡ true = h in cc
is_none-eq hash h = let no : false ≡ true = h in cc
is_none-eq tokenize h = let no : false ≡ true = h in cc

-- A transform that counts nothing leaves the body.
transform_matches-none :
    (hashed : Match → Bytes) (body : Bytes) (matches : List Match) (how : Strategy)
    → eqb (transform_matches hashed body matches how).count 0 ≡ true
    → (transform_matches hashed body matches how).payload ≡ body
unfolding transform_matches
transform_matches-none hashed body [] how h = ground arith
transform_matches-none hashed body (m ∷ ms) how h = ground arith

-- A result that has, if any, these bytes.
abbrev Gives : Bytes → Result (Bytes × Map Bytes Bytes) → Type 0
Gives body (err e) = Unit
Gives body (ok out) = out.0 ≡ body

module _ {W : Type 0} {net : Netip} (s : Services net W) where
  -- What the NER detector adds to the matches of a request's body: its own answer on that body, in
  -- some state of the services, where the policy asks for it and the worker has one; and nothing else.
  pub data Consulted (req : Request net) (more : List (Result (List Match))) : Type 0 where
    unasked : req.deep_inspection ≡ false → more ≡ [] → Consulted req more
    absent : req.deep_inspection ≡ true → s.deep ≡ none → more ≡ [] → Consulted req more
    consulted :
        (ner : W → Bytes → W × Result (List Match)) (w : W)
        → req.deep_inspection ≡ true
        → s.deep ≡ some ner
        → more ≡ (ner w req.body).1 ∷ []
        → Consulted req more

  -- What one destination gets: the body as it is, where its tier and the data's class require nothing;
  -- else the body with every match masked as they require, those of the NER detector included where it
  -- was asked and answered. Where originals are tokenised and the policy asks for it, it answered.
  pub data Prepared (p : Principal) (req : Request net) (d : Deployment) (body : Bytes)
      : Type 0 where
    bare :
        strategy_for p.default_class d.trust_tier ≡ no_strategy
        → body ≡ req.body
        → Prepared p req d body
    prepared :
        (more : List (Result (List Match)))
        → Consulted req more
        → body
          ≡ (transform_matches s.hashed req.body
              (detect_all (ok (detect s.patterns req.body) ∷ more)).0
              (strategy_for p.default_class d.trust_tier)).payload
        → is_tokenize (strategy_for p.default_class d.trust_tier)
            && (req.deep_inspection && not (heard more))
          ≡ false
        → Prepared p req d body

  -- The result of protect is a prepared body or an error.
  abbrev pub Ready :
      Principal → Request net → Deployment → Result (Bytes × Map Bytes Bytes) → Type 0
  Ready p req d (err e) = Unit
  Ready p req d (ok out) = Prepared p req d out.0

module _ {F W : Type 0} {net : Netip} (s : Services net W) where
  kept-Gives :
      (p : Principal) (req : Request net) (g : Gate F W) (how : Strategy) (t : Transformed)
      → Gives t.payload (kept s p req g how t).1
  unfolding kept
  kept-Gives p req g how t = elim (Bool-cases (is_tokenize how)) [
    | inr q ↦ rw q refl
    | inl q ↦ rw q (elim (Option-cases s.vault) [
      | inl e ↦ simp e refl
      | inr (vault, e) ↦
          elim (Option-cases (vault.put g.world p.tenant req.meta.request_id t.replacements).1) [
            | inl z ↦ simp e (simp z refl)
            | inr (f, z) ↦ simp e (simp z tt)
          ]
    ])
  ]

  -- What masked gives, and when it refuses.
  masked-Gives :
      (p : Principal) (req : Request net) (g : Gate F W) (how : Strategy) (matches : List Match)
      (failure : Option Error)
      → Gives
          (transform_matches s.hashed req.body matches how).payload
          (masked s p req g how matches failure).1
  unfolding masked
  masked-Gives p req g how matches failure =
      let t = transform_matches s.hashed req.body matches how in
      elim (Bool-cases (is_some failure && is_tokenize how)) [
        | inl q ↦ rw q tt
        | inr q ↦ elim (Bool-cases (eqb t.count 0)) [
          | inl z ↦ rw (q, z) (sym (transform_matches-none s.hashed req.body matches how z))
          | inr z ↦ rw (q, z) (kept-Gives p req g how t)
        ]
      ]

  masked_refuses :
      (p : Principal) (req : Request net) (g : Gate F W) (how : Strategy) (matches : List Match)
      (failure : Option Error)
      → is_some failure && is_tokenize how ≡ true
      → (masked s p req g how matches failure).1
        ≡ err (
            over
              (new unavailable "")
              (wrapf unavailable failure "deep inspection was required and is unavailable" []))
  unfolding masked
  masked_refuses p req g how matches failure q = rw q refl

  masked-Ready :
      (p : Principal) (req : Request net) (d : Deployment) (g : Gate F W)
      (more : List (Result (List Match))) (missing : Option Error)
      → Consulted s req more
      → (is_some (first_error missing (detect_all (ok (detect s.patterns req.body) ∷ more)).1)
            ≡ false
          → req.deep_inspection && not (heard more) ≡ false)
      → Ready s p req d
          (masked s p req g
            (strategy_for p.default_class d.trust_tier)
            (detect_all (ok (detect s.patterns req.body) ∷ more)).0
            (first_error missing (detect_all (ok (detect s.patterns req.body) ∷ more)).1)).1
  masked-Ready p req d g more missing asked answered =
      let how = strategy_for p.default_class d.trust_tier in
      let ms = (detect_all (ok (detect s.patterns req.body) ∷ more)).0 in
      let failure = first_error missing (detect_all (ok (detect s.patterns req.body) ∷ more)).1 in
      let given = masked-Gives p req g how ms failure in
      elim (Bool-cases (is_some failure && is_tokenize how)) [
        | inl q ↦ subst (Ready s p req d) (sym (masked_refuses p req g how ms failure q)) tt
        | inr q ↦ elim (Result-cases (masked s p req g how ms failure).1) [
          | inl (e, z) ↦ subst (Ready s p req d) (sym z) tt
          | inr (out, z) ↦ subst (Ready s p req d) (sym z) (
              prepared more asked
                (subst (Gives (transform_matches s.hashed req.body ms how).payload) z given)
                (elim (Bool-cases (is_tokenize how)) [
                  | inr n ↦ rw n refl
                  | inl t ↦ rw t (answered (ground (arith, q, t)))
                ]))
        ]
      ]

  inspect_deep_answers :
      (asked : Bool) (g : Gate F W) (body : Bytes) (found : List Match)
      → let (g', (more, missing)) = inspect_deep s asked g body in
        is_some (first_error missing (detect_all (ok found ∷ more)).1) ≡ false
        → asked && not (heard more) ≡ false
  unfolding inspect_deep detect_all gathered
  inspect_deep_answers false g body found h = refl
  inspect_deep_answers true g body found h =
      let Failed : List (Result (List Match)) × Option Error → Type 0 =
        λ r. is_some (first_error r.1 (detect_all (ok found ∷ r.0)).1) ≡ false in
      elim (Option-cases s.deep) [
        | inl e ↦
            let z : (inspect_deep s true g body).1
                ≡ ([], some (new unavailable "this worker has no NER sidecar")) =
              simp (e, inspect_deep) refl in
            let impossible : true ≡ false = subst Failed z h in cc
        | inr (ner, e) ↦
            let z : (inspect_deep s true g body).1 ≡ ((ner g.world body).1 ∷ [], none) =
              simp (e, inspect_deep) refl in
            let k : Failed ((ner g.world body).1 ∷ [], none) = subst Failed z h in
            subst (λ r. not (heard r.0) ≡ false) (sym z)
              (elim (Result-cases (ner g.world body).1) [
                | inr (ms, q) ↦ rw q refl
                | inl (f, q) ↦
                    let impossible : true ≡ false = subst (λ r. Failed (r ∷ [], none)) q k in cc
              ])
      ]

  inspect_deep-Consulted :
      (req : Request net) (g : Gate F W)
      → Consulted s req (inspect_deep s req.deep_inspection g req.body).1.0
  unfolding inspect_deep
  inspect_deep-Consulted req g = elim (Bool-cases req.deep_inspection) [
    | inr q ↦ unasked q (rw q refl)
    | inl q ↦ elim (Option-cases s.deep) [
      | inl e ↦ absent q e (rw q (simp (e, inspect_deep) refl))
      | inr (ner, e) ↦ consulted ner g.world q e (rw q (simp (e, inspect_deep) refl))
    ]
  ]

  pub protect-Ready :
      (p : Principal) (req : Request net) (d : Deployment) (g : Gate F W)
      → Ready s p req d (protect s p req d g).1
  unfolding protect
  protect-Ready p req d g =
      let how = strategy_for p.default_class d.trust_tier in
      let deep = inspect_deep s req.deep_inspection g req.body in
      elim (Bool-cases (is_none how)) [
        | inl q ↦ rw q (bare (is_none-eq how q) refl)
        | inr q ↦ rw q (
            masked-Ready p req d deep.0 deep.1.0 deep.1.1 (inspect_deep-Consulted req g)
              (inspect_deep_answers req.deep_inspection g req.body (detect s.patterns req.body)))
      ]
