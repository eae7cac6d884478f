-- ===== src/Router/Execution/Tests.antt =====
-- Attempts at a concrete input: one candidate, whose breaker is open.
use model_gateway.Common.{
  ℕ, ◌+◌, ◌≤◌, ◌≡◌, refl, true, false, String, String_comparable, [], ◌∷◌, none, length, arith,
  lookup,
}
use model_gateway.Core.Errors.{Result, err, outside, is_retryable, find_gateway}
use model_gateway.Core.Catalog.{Deployment}
use model_gateway.Router.Breaker.{Breaker, opened}
use model_gateway.Router.Breaker.Cooldown.{asked}
use model_gateway.Router.Selection.{Router}
use model_gateway.Router.Selection.Tests.{whole, idle, scored}
use model_gateway.Router.Execution.{Turn, Maps, breaker_of, remaining, execute}
use model_gateway.Router.Execution.Attempts.{Ends, execute-Ends}
use model_gateway.Router.Execution.Probes.{probing, execute_strands_probe}

abbrev tripped : Breaker
tripped = record {
  failure_threshold = 5;
  cooldown = 100;
  half_open_successes = 2;
  state = opened;
  failures = 0;
  successes = 0;
  opened_at = 1_000;
  probe_in_flight = false;
}

abbrev pub probed : Router ℕ
probed = record idle { breakers = ("llama-east", tripped) ∷ [] }

abbrev pub reading : ℕ → Turn
reading i = record {
  deadline = 0;
  context = none;
  budgeting = 2_000;
  allowing = 2_000;
  alive = true;
  present = true;
  latency = 5;
  failing = 2_005;
  observing = 2_005;
  updating = 2_005;
}

-- The caller's request is malformed, whatever is called. The world counts the calls.
abbrev malformed : ℕ → ℕ → Deployment → ℕ × Result String
malformed i calls d = (calls + 1, err (outside "bad request"))

abbrev pub alone : ℕ → Maps ℕ → Maps ℕ
alone i m = m

execute-Ends_example :
    Ends
      (scored 1 ∷ [])
      (execute whole malformed alone probed 0 reading (scored 1 ∷ [])).0.attempts
      (execute whole malformed alone probed 0 reading (scored 1 ∷ [])).1
    × (length (execute whole malformed alone probed 0 reading (scored 1 ∷ [])).0.attempts ≤ 3)
execute-Ends_example = execute-Ends whole malformed alone probed 0 reading (scored 1 ∷ [])

execute_strands_probe_example :
    asked
      (breaker_of
        (execute whole malformed alone probed 0 reading (scored 1 ∷ [])).0.router
        "llama-east")
      (2_100 ∷ 9_000_000 ∷ [])
    ≡ (probing (breaker_of probed "llama-east"), 0)
unfolding lookup remaining is_retryable find_gateway
execute_strands_probe_example =
    execute_strands_probe whole malformed alone probed 0 1 reading (scored 1) []
      (outside "bad request") (2_100 ∷ 9_000_000 ∷ []) (omega arith, omega arith, refl) refl
      (omega arith) refl refl (λ m. refl)
