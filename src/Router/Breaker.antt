-- ===== src/Router/Breaker.antt =====
-- dataplane/internal/router/breaker.go: the circuit breaker of one deployment. The mutex makes each
-- method one step; the clock's reading is an argument, in nanoseconds.
pub mod Invariant
pub mod Cooldown
pub mod Recovery
mod Tests
use model_gateway.Common.{
  ℕ, suc, ◌+◌, ◌*◌, Bool, true, false, ◌&&◌, List, [], ◌∷◌, ltb, leb, if◌then◌else◌,
}

pub data State : Type 0 where
  closed opened half_open : State

pub record Breaker : Type 0 where
  pub failure_threshold : ℕ
  pub cooldown : ℕ
  pub half_open_successes : ℕ
  pub state : State
  pub failures : ℕ
  pub successes : ℕ
  pub opened_at : ℕ
  pub probe_in_flight : Bool

abbrev pub default_failure_threshold : ℕ
default_failure_threshold = 5

-- 10 seconds.
abbrev pub default_cooldown : ℕ
default_cooldown = 10 * 1_000_000_000

abbrev pub default_half_open_successes : ℕ
default_half_open_successes = 2

-- The options that set a field; a count or duration that is not positive is 0 here.
pub data BreakerOption : Type 0 where
  with_failure_threshold with_cooldown : ℕ → BreakerOption

apply_option : Breaker → BreakerOption → Breaker
apply_option b (with_failure_threshold n) =
    if ltb 0 n then record b { failure_threshold = n } else b
apply_option b (with_cooldown d) = if ltb 0 d then record b { cooldown = d } else b

apply_options : Breaker → List BreakerOption → Breaker
unfolding apply_option
apply_options b [] = b
apply_options b (o ∷ os) = apply_options (apply_option b o) os

abbrev defaults : Breaker
defaults = record {
  failure_threshold = default_failure_threshold;
  cooldown = default_cooldown;
  half_open_successes = default_half_open_successes;
  state = closed;
  failures = 0;
  successes = 0;
  opened_at = 0;
  probe_in_flight = false;
}

-- NewBreaker
unfoldable pub new_breaker : List BreakerOption → Breaker
unfolding apply_options
new_breaker opts = apply_options defaults opts

-- `now.Sub(openedAt) < cooldown`, over the integers.
abbrev pub cooling : Breaker → ℕ → Bool
cooling b now = ltb now (b.opened_at + b.cooldown)

allow_in : State → Breaker → ℕ → Breaker × Bool
allow_in closed b now = (b, true)
allow_in opened b now =
    if cooling b now
    then (b, false)
    else (record b { state = half_open; successes = 0; probe_in_flight = true }, true)
allow_in half_open b now =
    if b.probe_in_flight then (b, false) else (record b { probe_in_flight = true }, true)

-- Breaker.Allow
unfoldable pub allow : Breaker → ℕ → Breaker × Bool
unfolding allow_in
allow b now = allow_in b.state b now

succeed_in : State → Breaker → Breaker
succeed_in half_open b =
    if leb b.half_open_successes (suc b.successes)
    then record b { state = closed; successes = 0 }
    else record b { successes = suc b.successes }
succeed_in _ b = b

-- Breaker.Succeed
unfoldable pub succeed : Breaker → Breaker
unfolding succeed_in
succeed b = succeed_in b.state (record b { probe_in_flight = false; failures = 0 })

-- The part of Fail after the half-open case.
count_failure : Breaker → ℕ → Breaker
count_failure b now =
    if leb b.failure_threshold (suc b.failures)
    then record b { state = opened; opened_at = now; failures = 0 }
    else record b { failures = suc b.failures }

fail_in : State → Breaker → ℕ → Breaker
unfolding count_failure
fail_in half_open b now = record b { state = opened; opened_at = now; successes = 0 }
fail_in closed b now = count_failure b now
fail_in opened b now = count_failure b now

-- Breaker.Fail
unfoldable pub fail : Breaker → ℕ → Breaker
unfolding fail_in
fail b now = fail_in b.state (record b { probe_in_flight = false }) now

abbrev is_open : State → Bool
is_open opened = true
is_open _ = false

-- Breaker.Open
unfoldable pub refusing : Breaker → ℕ → Bool
refusing b now = is_open b.state && cooling b now

-- One call of a method, with the time at which it reads the clock.
pub data Call : Type 0 where
  allows fails : ℕ → Call
  succeeds : Call

unfoldable pub step : Breaker → Call → Breaker
unfolding allow succeed fail
step b (allows now) = (allow b now).0
step b (fails now) = fail b now
step b succeeds = succeed b

unfoldable pub run : Breaker → List Call → Breaker
run b [] = b
run b (c ∷ cs) = run (step b c) cs
