-- ===== src/Router/Selection/Eligible.antt =====
-- Which deployments Select returns, and what it says where it returns none.
use mathlib.Core.List.{Perm, perm_middle}
use mathlib.Core.List.Perm
use model_gateway.Common.{
  ℕ, suc, String_comparable, ◌≡◌, refl, sym, subst, ap, ◌∙◌, ◌⊎◌, inl, inr, Bool, true, false, not,
  ◌&&◌, ◌||◌, List, [], ◌∷◌, ◌++◌, map, some, if◌then◌else◌, filter, any, arith, append_nil,
  append_move, Bool-cases,
}
use model_gateway.Common.Int.{ℤ}
use model_gateway.Core.Errors.{
  Error, Code, Result, ok, err, code_of, newf, model_not_found, no_candidates, trust_tier_denied,
  endpoint_unsupported, find_gateway,
}
use model_gateway.Core.Trust.{at_least}
use model_gateway.Core.Catalog.{Deployment, serving, supports}
use model_gateway.Core.Identity.{is_empty}
use model_gateway.Core.Snapshot.Lookups.{resolve_alias}
use model_gateway.Router.Floats.{Floats}
use model_gateway.Router.Selection.{
  Candidate, Router, SelectionInput, Providers, serves, Reach, found, in_service, in_tier, eligible,
  reach, Seen, note, offered, selection_error, collect, health_for, apply_objective, rescore_all,
  price_range, rescored, place, draw_weight, by_score, promote, winner_first, total_weight,
  weights_differ, unseen, select_from, select,
}

-- A deployment that may serve the request.
abbrev pub fits : Providers → SelectionInput → Deployment → Bool
fits providers i d =
    serving d
    && (at_least d.trust_tier i.min_trust_tier
        && (supports d i.required && serves (providers d.provider) i.endpoint))

-- One that serves traffic in a tier that is trusted enough.
abbrev pub trusted : SelectionInput → Deployment → Bool
trusted i d = serving d && at_least d.trust_tier i.min_trust_tier

-- Why a list of deployments has none that fits.
abbrev pub reason : SelectionInput → List Deployment → Code
reason i ds =
    if is_empty ds
    then model_not_found
    else if not (any serving ds)
    then no_candidates
    else if not (any (trusted i) ds)
    then trust_tier_denied
    else endpoint_unsupported

abbrev is_eligible : Reach → Bool
is_eligible eligible = true
is_eligible _ = false

is_eligible-reach :
    (providers : Providers) (i : SelectionInput) (d : Deployment)
    → is_eligible (reach providers i d) ≡ fits providers i d
unfolding reach
is_eligible-reach providers i d = ground arith

note-reach :
    (providers : Providers) (i : SelectionInput) (d : Deployment) (s : Seen)
    → note (reach providers i d) s
      ≡ record { any = true; serving = s.serving || serving d; tier = s.tier || trusted i d }
unfolding reach
note-reach providers i d s = ground arith

Reach-cases : (x : Reach) → (x ≡ found) ⊎ ((x ≡ in_service) ⊎ ((x ≡ in_tier) ⊎ (x ≡ eligible)))
Reach-cases found = inl refl
Reach-cases in_service = inr (inl refl)
Reach-cases in_tier = inr (inr (inl refl))
Reach-cases eligible = inr (inr (inr refl))

-- The flags after a list of deployments.
abbrev seen_all : SelectionInput → Seen → List Deployment → Seen
seen_all i s ds = record {
  any = s.any || not (is_empty ds);
  serving = s.serving || any serving ds;
  tier = s.tier || any (trusted i) ds;
}

module _ {F : Type 0} (fl : Floats F) where
  abbrev pub deployments_of : List (Candidate F) → List Deployment
  deployments_of cs = map (λ c. c.deployment) cs

  -- What the rest of the loop returns has to be what the lists say of the rest.
  record Collected (providers : Providers) (i : SelectionInput) (s : Seen) (ds : List Deployment)
      (out : (Router F × Seen) × List (Candidate F)) : Type 0 where
    chosen : deployments_of out.1 ≡ filter (fits providers i) ds
    seen : out.0.1 ≡ seen_all i s ds

  -- A deployment that is passed over.
  passed_over :
      (providers : Providers) (i : SelectionInput) (s : Seen) (d : Deployment)
      (ds : List Deployment) (out : (Router F × Seen) × List (Candidate F))
      → fits providers i d ≡ false
      → Collected providers i (note (reach providers i d) s) ds out
      → Collected providers i s (d ∷ ds) out
  passed_over providers i s d ds out f rest = record {
    chosen = ground (arith, f, rest.chosen);
    seen = rest.seen ∙ ap (λ x. seen_all i x ds) (note-reach providers i d s) ∙ ground arith;
  }

  collect-Collected :
      (providers : Providers) (i : SelectionInput) (clock : ℕ → ℕ) (n : ℕ) (r : Router F) (s : Seen)
      (ds : List Deployment)
      → Collected providers i s ds (collect fl providers i clock n r s ds)
  unfolding collect
  collect-Collected providers i clock n r s [] = record { chosen = refl; seen = ground arith }
  collect-Collected providers i clock n r s (d ∷ ds) =
      let fit = is_eligible-reach providers i d in
      let over = passed_over providers i s d ds in
      elim (Reach-cases (reach providers i d)) [
        | inl e ↦
            rw (e, collect)
              (over _ (ground (arith, fit, e))
                (rw e (collect-Collected providers i clock n r (note found s) ds)))
        | inr (inl e) ↦
            rw (e, collect)
              (over _ (ground (arith, fit, e))
                (rw e (collect-Collected providers i clock n r (note in_service s) ds)))
        | inr (inr (inl e)) ↦
            rw (e, collect)
              (over _ (ground (arith, fit, e))
                (rw e (collect-Collected providers i clock n r (note in_tier s) ds)))
        | inr (inr (inr e)) ↦
            let (r', h) = health_for fl r d.id in
            let rest = collect-Collected providers i clock (suc n) r' (note eligible s) ds in
            rw (e, collect)
              (record {
                chosen = ground (arith, fit, e, rest.chosen);
                seen =
                    rest.seen
                    ∙ ap (λ x. seen_all i x ds)
                        (ap (λ y. note y s) (sym e) ∙ note-reach providers i d s)
                    ∙ ground arith;
              })
      ]

  place-Perm :
      (c : Candidate F) (cs : List (Candidate F))
      → Perm (deployments_of (place fl c cs)) (c.deployment ∷ deployments_of cs)
  unfolding place
  place-Perm c [] = Perm.refl (c.deployment ∷ [])
  place-Perm c (x ∷ xs) = elim (Bool-cases (fl.greater x.score c.score)) [
    | inl e ↦ rw e (
        Perm.trans (Perm.cons x.deployment (place-Perm c xs))
          (Perm.swap c.deployment x.deployment (deployments_of xs)))
    | inr e ↦ rw e (Perm.refl (c.deployment ∷ x.deployment ∷ deployments_of xs))
  ]

  by_score-Perm :
      (cs : List (Candidate F)) → Perm (deployments_of (by_score fl cs)) (deployments_of cs)
  unfolding by_score
  by_score-Perm [] = Perm.nil
  by_score-Perm (c ∷ cs) =
      Perm.trans (place-Perm c (by_score fl cs)) (Perm.cons c.deployment (by_score-Perm cs))

  winner_first-Perm :
      (target running : F) (passed cs : List (Candidate F))
      → Perm (winner_first fl target running passed cs) (passed ++ cs)
  unfolding winner_first
  winner_first-Perm target running passed [] = rw append_nil (Perm.refl passed)
  winner_first-Perm target running passed (c ∷ cs) =
      elim (Bool-cases (fl.greater (fl.plus running (draw_weight fl c)) target)) [
        | inl e ↦ rw e (Perm.symm (perm_middle passed cs))
        | inr e ↦ rw e (
            subst
              (λ l.
                Perm
                  (winner_first fl target (fl.plus running (draw_weight fl c)) (passed ++ c ∷ [])
                    cs)
                  l)
              (append_move passed c cs)
              (winner_first-Perm target (fl.plus running (draw_weight fl c)) (passed ++ c ∷ []) cs))
      ]

  promote-Perm : (cs : List (Candidate F)) (draw : F) → Perm (promote fl cs draw) cs
  unfolding promote
  promote-Perm [] draw = Perm.nil
  promote-Perm (c ∷ []) draw = Perm.refl (c ∷ [])
  promote-Perm (c ∷ d ∷ cs) draw =
      elim (Bool-cases (weights_differ fl c.deployment.weight (d ∷ cs))) [
        | inr e ↦ rw e (Perm.refl (c ∷ d ∷ cs))
        | inl e ↦
            elim (Bool-cases
              (fl.at_most (total_weight fl (fl.decimal 0 1) (c ∷ d ∷ cs)) (fl.decimal 0 1))) [
                | inl t ↦ rw (e, t) (Perm.refl (c ∷ d ∷ cs))
                | inr t ↦ rw (e, t) (winner_first-Perm _ _ [] (c ∷ d ∷ cs))
              ]
      ]

  apply_objective-deployments :
      (i : SelectionInput) (cs : List (Candidate F))
      → deployments_of (apply_objective fl cs i) ≡ deployments_of cs
  unfolding apply_objective rescored
  apply_objective-deployments i cs = each (price_range fl cs i.reference_tokens) cs
    where
      each :
          (range : ℤ × ℤ) (l : List (Candidate F))
          → deployments_of (rescore_all fl i range l) ≡ deployments_of l
      each range [] = refl
      each range (c ∷ l) = ap (λ ds. c.deployment ∷ ds) (each range l)

  -- What Select decides: some offered deployment fits, and the candidates are those that fit; or none
  -- does, and the error says why.
  pub data Selects (providers : Providers) (i : SelectionInput) (ds : List Deployment)
      (result : Result (List (Candidate F))) : Type 0 where
    chosen :
        (cs : List (Candidate F))
        → result ≡ ok cs
        → any (fits providers i) ds ≡ true
        → Perm (deployments_of cs) (filter (fits providers i) ds)
        → Selects providers i ds result
    refused :
        (e : Error)
        → result ≡ err e
        → any (fits providers i) ds ≡ false
        → code_of (some e) ≡ reason i ds
        → Selects providers i ds result

  pub any-filter :
      (p : Deployment → Bool) (ds : List Deployment) → any p ds ≡ not (is_empty (filter p ds))
  any-filter p [] = refl
  any-filter p (d ∷ ds) = ground (arith, any-filter p ds)

  code-selection_error :
      (i : SelectionInput) (ds : List Deployment)
      → code_of (some (selection_error i.model i.min_trust_tier (seen_all i unseen ds)))
        ≡ reason i ds
  unfolding selection_error code_of newf find_gateway
  code-selection_error i ds = ground arith

  select_from-Selects :
      (providers : Providers) (i : SelectionInput) (ds : List Deployment) (draw : F)
      (out : (Router F × Seen) × List (Candidate F))
      → Collected providers i unseen ds out
      → Selects providers i ds (select_from fl i draw out).1
  unfolding select_from
  select_from-Selects providers i ds draw ((r, s), []) h =
      refused _ refl (ground (arith, any-filter (fits providers i) ds, h.chosen)) (
        ap (λ x. code_of (some (selection_error i.model i.min_trust_tier x))) h.seen
        ∙ code-selection_error i ds)
  select_from-Selects providers i ds draw ((r, s), c ∷ cs) h =
      chosen _ refl (ground (arith, any-filter (fits providers i) ds, h.chosen)) (
        let scored = apply_objective fl (c ∷ cs) i in
        subst (λ l. Perm (deployments_of (promote fl (by_score fl scored) draw)) l)
          (apply_objective-deployments i (c ∷ cs) ∙ h.chosen)
          (Perm.trans (Perm.map (λ x. x.deployment) (promote-Perm (by_score fl scored) draw))
            (by_score-Perm scored)))

  -- Select returns every deployment of the model's targets that serves traffic, is trusted enough, has
  -- the required capabilities and a provider for the endpoint, each as often as it is offered and no
  -- other; where there is none it fails, and its code says whether the model is unknown, none serves
  -- traffic, none that does is trusted enough, or none of those fits the request.
  pub select-Selects :
      (r : Router F) (providers : Providers) (clock : ℕ → ℕ) (draw : F) (i : SelectionInput)
      → Selects providers i
          (offered i.snapshot (resolve_alias i.snapshot i.tenant i.model))
          (select fl r providers clock draw i).1
  unfolding select
  select-Selects r providers clock draw i =
      let ds = offered i.snapshot (resolve_alias i.snapshot i.tenant i.model) in
      select_from-Selects providers i ds draw (collect fl providers i clock 0 r unseen ds)
        (collect-Collected providers i clock 0 r unseen ds)
