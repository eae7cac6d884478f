-- ===== src/Router/Prober/Tests.antt =====
-- A probe that succeeds, of a deployment whose breaker is open.
use model_gateway.Common.{ℕ, ◌+◌, ◌≡◌, refl, [], ◌∷◌, none, lookup}
use model_gateway.Core.Errors.{ok}
use model_gateway.Router.Breaker.{allow}
use model_gateway.Router.Execution.{breaker_of}
use model_gateway.Router.Execution.Tests.{probed}
use model_gateway.Router.Prober.{Reads, Probes, probe, idle_among, seen_lately}
use model_gateway.Router.Prober.Probing.{probe-allow}
use model_gateway.Router.Selection.Tests.{whole, llama, vllm}

-- The world counts the probes.
abbrev healthy : Probes ℕ
healthy = record {
  providers = vllm;
  credentials = λ w ref. (w, ok "secret");
  ping = λ w d credential. (w + 1, none);
}

abbrev quick : Reads
quick = record { latency = 5; observing = 1_040; updating = 1_040 }

probe-allow_example :
    (allow (breaker_of (probe whole healthy quick probed 0 llama).0 "llama-east") 1_050).1
    ≡ (allow (breaker_of probed "llama-east") 1_050).1
unfolding lookup
probe-allow_example = probe-allow whole healthy quick probed 0 llama 1_050 refl

one_is_idle :
    idle_among
      (("a", 100_000_000_000) ∷ ("b", 20_000_000_000) ∷ [])
      (λ n. 120_000_000_000)
      0
      ("a" ∷ "b" ∷ [])
    ≡ "b" ∷ []
unfolding idle_among seen_lately lookup
one_is_idle = refl
