-- ===== src/Gateway/Protect.antt =====
-- dataplane/internal/gateway/pipeline.go: protect, which prepares a body for one destination.
use model_gateway.Common.{
  ℕ, String, String_comparable, Bool, true, false, ◌&&◌, ◌||◌, List, [], ◌∷◌, Option, none, some,
  is_some, eqb, leb, if◌then◌else◌, Map, ◌==◌,
}
use model_gateway.Core.Errors.{Error, Result, ok, err, new, unavailable, wrapf}
use model_gateway.Core.Catalog.{Deployment}
use model_gateway.Core.Identity.{Principal}
use model_gateway.Core.Trust.{trust_internal, class_internal, class_confidential, class_restricted}
use model_gateway.Gateway.{Request, Gate, Services, stored, noted}
use model_gateway.Pii.{Bytes, Match, detect, detect_all}
use model_gateway.Pii.Transform.{
  Strategy, no_strategy, redact, tokenize, is_none, is_tokenize, Transformed, transform_matches,
}
use model_gateway.Policy.{Netip}

-- strategyFor
unfoldable pub strategy_for : String → ℕ → Strategy
strategy_for class tier =
    if leb trust_internal tier
    then no_strategy
    else if class == class_restricted || class == class_confidential
    then tokenize
    else if class == class_internal
    then redact
    else no_strategy

-- The error of deep inspection: the first of DetectAll's, or else the missing detector's.
abbrev pub first_error : Option Error → List Error → Option Error
first_error missing [] = missing
first_error missing (e ∷ es) = some e

-- An error over a cause that is not nil.
abbrev pub over : Error → Option Error → Error
over cause none = cause
over cause (some e) = e

module _ {F W : Type 0} {net : Netip} (s : Services net W) where
  -- What the NER detector found, if the request asks for it, and the error of a worker without one.
  unfoldable pub inspect_deep :
      Bool → Gate F W → Bytes → Gate F W × (List (Result (List Match)) × Option Error)
  inspect_deep false g body = (g, ([], none))
  inspect_deep true g body = elim s.deep [
    | none ↦ (g, ([], some (new unavailable "this worker has no NER sidecar")))
    | some ner ↦ let (w, answer) = ner g.world body in (record g { world = w }, (answer ∷ [], none))
  ]

  -- The end of protect: keeping the originals of a tokenised body.
  unfoldable pub kept :
      Principal
      → Request net
      → Gate F W
      → Strategy
      → Transformed
      → Gate F W × Result (Bytes × Map Bytes Bytes)
  kept p req g how t =
      if is_tokenize how
      then elim s.vault [
        | none ↦ (g, ok (t.payload, t.replacements))
        | some vault ↦
            let (w, failure) = vault.put g.world p.tenant req.meta.request_id t.replacements in
            elim failure [
              | none ↦ (noted g w (stored t.replacements), ok (t.payload, t.replacements))
              | some e ↦ (record g { world = w }, err e)
            ]
      ]
      else (g, ok (t.payload, t.replacements))

  -- protect, from the detectors' results on.
  unfoldable pub masked :
      Principal
      → Request net
      → Gate F W
      → Strategy
      → List Match
      → Option Error
      → Gate F W × Result (Bytes × Map Bytes Bytes)
  masked p req g how matches failure =
      let t = transform_matches s.hashed req.body matches how in
      if is_some failure && is_tokenize how
      then (
        g,
        err (
            over (new unavailable "")
              (wrapf unavailable failure "deep inspection was required and is unavailable" [])),
      )
      else if eqb t.count 0
      then (g, ok (req.body, []))
      else kept p req g how t

  -- protect
  unfoldable pub protect :
      Principal → Request net → Deployment → Gate F W → Gate F W × Result (Bytes × Map Bytes Bytes)
  protect p req d g =
      let how = strategy_for p.default_class d.trust_tier in
      let (g', (more, missing)) = inspect_deep req.deep_inspection g req.body in
      let (matches, errors) = detect_all (ok (detect s.patterns req.body) ∷ more) in
      if is_none how
      then (g, ok (req.body, []))
      else masked p req g' how matches (first_error missing errors)
