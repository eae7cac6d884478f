-- ===== src/Router/Breaker/Invariant.antt =====
-- What holds of a breaker between any two calls.
use model_gateway.Common.{ℕ, suc, ◌+◌, ◌<◌, ◌≡◌, refl, ◌≢◌, true, List, [], ◌∷◌, arith}
use model_gateway.Router.Breaker.{
  Breaker, BreakerOption, with_failure_threshold, with_cooldown, closed, half_open, Call, allows,
  fails, succeeds, apply_options, apply_option, defaults, new_breaker, step, run,
}

pub record IsValid (b : Breaker) : Type 0 where
  pub some_failures : 0 < b.failure_threshold
  pub below_threshold : b.failures < b.failure_threshold
  pub some_cooldown : 0 < b.cooldown
  pub some_successes : 0 < b.half_open_successes
  pub probes_left : b.successes < b.half_open_successes
  pub idle_count : b.state ≢ half_open → b.successes ≡ 0
  pub probing : b.probe_in_flight ≡ true → b.state ≡ half_open

apply_options-IsValid :
    (b : Breaker) (opts : List BreakerOption)
    → b.failures ≡ 0
    → IsValid b
    → IsValid (apply_options b opts)
unfolding apply_options
apply_options-IsValid b [] z v = v
apply_options-IsValid b (with_failure_threshold n ∷ os) z v =
    apply_options-IsValid (apply_option b (with_failure_threshold n)) os
      (unfold apply_option in ground arith) (unfold apply_option in ground arith)
apply_options-IsValid b (with_cooldown d ∷ os) z v =
    apply_options-IsValid (apply_option b (with_cooldown d)) os
      (unfold apply_option in ground arith) (unfold apply_option in ground arith)

pub new_breaker-IsValid : (opts : List BreakerOption) → IsValid (new_breaker opts)
unfolding new_breaker
new_breaker-IsValid opts = apply_options-IsValid defaults opts refl (ground arith)

pub step-IsValid : (b : Breaker) (c : Call) → IsValid b → IsValid (step b c)
unfolding step
step-IsValid b (allows now) v = ground arith
step-IsValid b (fails now) v = ground arith
step-IsValid b succeeds v = ground arith

pub run-IsValid : (b : Breaker) (cs : List Call) → IsValid b → IsValid (run b cs)
unfolding run
run-IsValid b [] v = v
run-IsValid b (c ∷ cs) v = run-IsValid (step b c) cs (step-IsValid b c v)

-- However a breaker is configured and whatever calls it gets, its failure count stays below the
-- threshold and its success count below the number of probes that closes it, successes are counted
-- in the half-open state only, and a probe is in flight in the half-open state only.
pub run-new_breaker-IsValid :
    (opts : List BreakerOption) (cs : List Call) → IsValid (run (new_breaker opts) cs)
run-new_breaker-IsValid opts cs = run-IsValid (new_breaker opts) cs (new_breaker-IsValid opts)

-- How many failures have been reported.
abbrev pub failed : List Call → ℕ
failed [] = 0
failed (fails _ ∷ cs) = suc (failed cs)
failed (_ ∷ cs) = failed cs

step-threshold : (b : Breaker) (c : Call) → (step b c).failure_threshold ≡ b.failure_threshold
unfolding step
step-threshold b (allows now) = ground arith
step-threshold b (fails now) = ground arith
step-threshold b succeeds = ground arith

step_closed :
    (b : Breaker) (c : Call) (cs : List Call)
    → b.state ≡ closed
    → b.failures + failed (c ∷ cs) < b.failure_threshold
    → ((step b c).state ≡ closed) × ((step b c).failures + failed cs < (step b c).failure_threshold)
unfolding step
step_closed b (allows now) cs e h = ground arith
step_closed b (fails now) cs e h = ground arith
step_closed b succeeds cs e h = ground arith

-- A closed breaker stays closed through any calls in which fewer failures are reported than its
-- threshold has left.
pub run_closed :
    (b : Breaker) (cs : List Call)
    → b.state ≡ closed
    → b.failures + failed cs < b.failure_threshold
    → (run b cs).state ≡ closed
unfolding run
run_closed b [] e h = e
run_closed b (c ∷ cs) e h = let (e', h') = step_closed b c cs e h in run_closed (step b c) cs e' h'
