-- ===== src/Router/Health.antt =====
-- dataplane/internal/router/health.go: the health of one deployment, an average that decays. A
-- duration is in nanoseconds, and the zero time is 0.
use model_gateway.Common.{ℕ, suc, ◌-◌, Bool, eqb, leb, ltb, if◌then◌else◌}
use model_gateway.Common.Int.{pos}
use model_gateway.Router.Floats.{Floats}

pub record Health (F : Type 0) : Type 0 where
  pub half_life : ℕ
  pub error_avg : F
  pub latency : F
  pub count : ℕ
  pub updated : ℕ

-- 30 seconds.
abbrev pub default_half_life : ℕ
default_half_life = 30_000_000_000

abbrev pub warmup_observations : ℕ
warmup_observations = 5

module _ {F : Type 0} (fl : Floats F) where
  -- Duration.Seconds
  unfoldable pub seconds : ℕ → F
  seconds d = fl.over (fl.of_int (pos d)) (fl.decimal 1_000_000_000 1)

  -- NewHealth with the option WithHalfLife, which ignores a duration that is not positive.
  unfoldable pub new_health : ℕ → Health F
  new_health half_life = record {
    half_life = if ltb 0 half_life then half_life else default_half_life;
    error_avg = fl.decimal 0 1;
    latency = fl.decimal 0 1;
    count = 0;
    updated = 0;
  }

  -- Health.decay; an elapsed time that is not positive counts as one half-life.
  unfoldable pub decay : Health F → ℕ → F
  unfolding seconds
  decay h now =
      if eqb h.updated 0
      then fl.decimal 0 1
      else if leb now h.updated
      then fl.exp2 (fl.minus (fl.decimal 0 1) (fl.decimal 1 1))
      else fl.exp2
          (fl.over (fl.minus (fl.decimal 0 1) (seconds (now - h.updated))) (seconds h.half_life))

  -- Health.Observe, with its readings of the clock.
  unfoldable pub observe : Health F → Bool → ℕ → ℕ → ℕ → Health F
  unfolding decay seconds
  observe h failed latency now later =
      let weight = decay h now in
      let rest = fl.minus (fl.decimal 1 1) weight in
      let outcome = if failed then fl.decimal 1 1 else fl.decimal 0 1 in
      record h {
        error_avg = fl.plus (fl.times h.error_avg weight) (fl.times outcome rest);
        latency = fl.plus (fl.times h.latency weight) (fl.times (seconds latency) rest);
        count = suc h.count;
        updated = later;
      }

  -- Health.Score
  unfoldable pub score : Health F → ℕ → F
  unfolding decay
  score h now =
      let weight = decay h now in
      let late =
        fl.least (fl.over (fl.times h.latency weight) (fl.decimal 10 1)) (fl.decimal 5 10) in
      if ltb h.count warmup_observations
      then fl.decimal 1 1
      else fl.most (fl.decimal 0 1)
          (fl.minus (fl.decimal 1 1) (fl.plus (fl.times h.error_avg weight) late))
