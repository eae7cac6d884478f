-- ===== src/Router/Prober/Probing.antt =====
-- What a probe does to an open breaker.
use model_gateway.Common.{
  ℕ, ◌≡◌, refl, ap, ◌∙◌, inl, inr, String, String_comparable, Option, none, some, is_some, lookup,
  lookup-insert_self, arith, Bool-cases, Option-cases,
}
use model_gateway.Core.Errors.{Error, Result, ok, err}
use model_gateway.Core.Catalog.{Deployment}
use model_gateway.Router.Breaker.{Breaker, opened, allow, succeed}
use model_gateway.Router.Execution.{breaker_of, breaker_or}
use model_gateway.Router.Floats.{Floats}
use model_gateway.Router.Prober.{Reads, Probes, scored_by, probe_with, probe}
use model_gateway.Router.Selection.{Router, health_for}

succeed-allow :
    (b : Breaker) (now : ℕ) → b.state ≡ opened → (allow (succeed b) now).1 ≡ (allow b now).1
unfolding allow succeed
succeed-allow b now e = ground arith

module _ {F W : Type 0} (fl : Floats F) (s : Probes W) where
  health_for-breaker :
      (r : Router F) (id : String) → breaker_of (health_for fl r id).0 id ≡ breaker_of r id
  unfolding health_for
  health_for-breaker r id = elim (Option-cases (lookup id r.health)) [
    | inl e ↦ rw (e, health_for) refl
    | inr (h, e) ↦ rw (e, health_for) refl
  ]

  scored_by-allow :
      (t : Reads) (r : Router F) (d : Deployment) (failure : Option Error) (now : ℕ)
      → (breaker_of r d.id).state ≡ opened
      → (allow (breaker_of (scored_by fl s t r d failure) d.id) now).1
        ≡ (allow (breaker_of r d.id) now).1
  unfolding scored_by
  scored_by-allow t r d (some e) now o = ap (λ b. (allow b now).1) (health_for-breaker r d.id)
  scored_by-allow t r d none now o =
      let same = health_for-breaker r d.id in
      let b = breaker_of (health_for fl r d.id).0 d.id in
      let now_open : b.state ≡ opened = ap (λ x. x.state) same ∙ o in
      ap (λ x. (allow (breaker_or (health_for fl r d.id).0.fresh_breaker x) now).1)
        (lookup-insert_self d.id (succeed b) (health_for fl r d.id).0.breakers)
      ∙ succeed-allow b now now_open
      ∙ ap (λ x. (allow x now).1) same

  probe_with-allow :
      (t : Reads) (r : Router F) (w : W) (d : Deployment) (credential : Result String) (now : ℕ)
      → (breaker_of r d.id).state ≡ opened
      → (allow (breaker_of (probe_with fl s t r w d credential).0 d.id) now).1
        ≡ (allow (breaker_of r d.id) now).1
  unfolding probe_with
  probe_with-allow t r w d (err e) now o = refl
  probe_with-allow t r w d (ok credential) now o =
      scored_by-allow t r d (s.ping w d credential).1 now o

  -- A probe of a deployment whose breaker is open, whether it succeeds or not, leaves the breaker's
  -- answer at every time as it was: a success does not end the cooldown.
  pub probe-allow :
      (t : Reads) (r : Router F) (w : W) (d : Deployment) (now : ℕ)
      → (breaker_of r d.id).state ≡ opened
      → (allow (breaker_of (probe fl s t r w d).0 d.id) now).1 ≡ (allow (breaker_of r d.id) now).1
  unfolding probe
  probe-allow t r w d now o = elim (Bool-cases (is_some (s.providers d.provider))) [
    | inr q ↦ rw q refl
    | inl q ↦ rw q (probe_with-allow t r _ d _ now o)
  ]
