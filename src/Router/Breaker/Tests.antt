-- ===== src/Router/Breaker/Tests.antt =====
-- A breaker at concrete inputs.
use model_gateway.Common.{◌≤◌, ◌≡◌, refl, true, false, [], ◌∷◌, arith}
use model_gateway.Router.Breaker.{Breaker, closed, opened, half_open, run}
use model_gateway.Router.Breaker.Cooldown.{asked, asked_once}
use model_gateway.Router.Breaker.Recovery.{Asks, run-probes, probes}

abbrev healthy : Breaker
healthy = record {
  failure_threshold = 3;
  cooldown = 100;
  half_open_successes = 2;
  state = closed;
  failures = 1;
  successes = 0;
  opened_at = 0;
  probe_in_flight = false;
}

abbrev tripped : Breaker
tripped = record healthy { state = opened; failures = 0; opened_at = 1_000 }

abbrev recovering : Breaker
recovering = record tripped { state = half_open; probe_in_flight = true }

asked_once_example : (asked tripped (1_050 ∷ 1_200 ∷ 1_201 ∷ [])).1 ≤ 1
asked_once_example = asked_once tripped (1_050 ∷ 1_200 ∷ 1_201 ∷ []) (λ e. cc)

run-probes_example :
    Asks (run tripped (probes 1 1_100)) 1_100 × ((run tripped (probes 2 1_100)).state ≡ closed)
run-probes_example = run-probes 1 1 tripped 1_100 refl (omega arith) (omega arith) refl
