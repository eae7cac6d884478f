-- ===== src/Router/Prober.antt =====
-- dataplane/internal/router/prober.go: the Prober, which probes deployments that receive no traffic.
-- The provider and the credentials answer and change a world of their own; the order of a shuffle is a
-- parameter, and so are the clock's readings, those of the n-th probe in `reads n`.
pub mod Probing
mod Tests
use model_gateway.Common.{
  ℕ, suc, ◌-◌, ◌+◌, String, String_comparable, Bool, true, false, not, ◌&&◌, List, [], ◌∷◌, Option,
  none, some, is_some, ltb, if◌then◌else◌, Map, lookup, insert,
}
use model_gateway.Core.Errors.{Error, Result, ok, err}
use model_gateway.Core.Catalog.{Deployment}
use model_gateway.Core.Snapshot.{Snapshot}
use model_gateway.Core.Snapshot.Lookups.{deployment, deployment_ids}
use model_gateway.Router.Breaker.{succeed}
use model_gateway.Router.Execution.{put_breaker, breaker_of}
use model_gateway.Router.Floats.{Floats}
use model_gateway.Router.Health.{observe}
use model_gateway.Router.Selection.{Router, Providers, health_for}

-- One minute.
abbrev pub idle_before_probing : ℕ
idle_before_probing = 60_000_000_000

-- Saw
unfoldable pub saw : Map String ℕ → String → ℕ → Map String ℕ
saw last_seen id now = insert id now last_seen

-- Whether a deployment was seen so lately that idle passes it over; a clock that went back leaves 0.
unfoldable pub seen_lately : Option ℕ → ℕ → Bool
seen_lately none now = false
seen_lately (some seen) now = ltb (now - seen) idle_before_probing

-- The loop of idle, before the shuffle, where the n-th deployment is looked at at `clock n`.
unfoldable pub idle_among : Map String ℕ → (ℕ → ℕ) → ℕ → List String → List String
idle_among last_seen clock n [] = []
idle_among last_seen clock n (id ∷ ids) =
    let rest = idle_among last_seen clock (suc n) ids in
    if seen_lately (lookup id last_seen) (clock n) then rest else id ∷ rest

-- What a probe reads of the clock.
pub record Reads : Type 0 where
  pub latency : ℕ
  pub observing : ℕ
  pub updating : ℕ

-- What the prober calls.
pub record Probes (W : Type 0) : Type 0 where
  pub providers : Providers
  pub credentials : W → String → W × Result String
  pub ping : W → Deployment → String → W × Option Error

module _ {F W : Type 0} (fl : Floats F) (s : Probes W) where
  -- probe, from the provider's answer on.
  unfoldable pub scored_by : Reads → Router F → Deployment → Option Error → Router F
  scored_by t r d failure =
      let (r', h) = health_for fl r d.id in
      let r'' = record r' {
        health =
            insert d.id (observe fl h (is_some failure) t.latency t.observing t.updating) r'.health;
      } in
      elim failure [ some e ↦ r'' | none ↦ put_breaker r'' d.id (succeed (breaker_of r'' d.id)) ]

  -- probe, from the credential on.
  unfoldable pub probe_with : Reads → Router F → W → Deployment → Result String → Router F × W
  probe_with t r w d (err e) = (r, w)
  probe_with t r w d (ok credential) =
      let (w', failure) = s.ping w d credential in (scored_by t r d failure, w')

  -- probe
  unfoldable pub probe : Reads → Router F → W → Deployment → Router F × W
  probe t r w d =
      let (w', credential) = s.credentials w d.credential_ref in
      if not (is_some (s.providers d.provider)) then (r, w) else probe_with t r w' d credential

  -- The loop of RunOnce, from the n-th probe on, with their number.
  unfoldable pub probe_each :
      (ℕ → Reads) → ℕ → Snapshot → Router F → W → List String → (Router F × W) × ℕ
  probe_each reads n snap r w [] = ((r, w), n)
  probe_each reads n snap r w (id ∷ ids) = elim (deployment snap id) [
    | none ↦ probe_each reads n snap r w ids
    | some d ↦ let (r', w') = probe (reads n) r w d in probe_each reads (suc n) snap r' w' ids
  ]

  -- RunOnce; without a snapshot it does nothing.
  unfoldable pub run_once :
      (ℕ → Reads)
      → (List String → List String)
      → Map String ℕ
      → (ℕ → ℕ)
      → Router F
      → W
      → Option Snapshot
      → (Router F × W) × ℕ
  run_once reads shuffle last_seen clock r w none = ((r, w), 0)
  run_once reads shuffle last_seen clock r w (some snap) =
      probe_each reads 0 snap r w (shuffle (idle_among last_seen clock 0 (deployment_ids snap)))
