-- ===== src/Router/Breaker/Cooldown.antt =====
-- When a breaker refuses.
use model_gateway.Common.{
  ℕ, suc, ◌+◌, ◌≤◌, ◌<◌, ◌≡◌, refl, ◌≢◌, ◌↔◌, ◌⊎◌, true, false, List, [], ◌∷◌, All, arith,
  if◌then◌else◌,
}
use model_gateway.Router.Breaker.{Breaker, closed, opened, half_open, allow, refusing}

-- The answers of consecutive `Allow` calls, at the given times, with no outcome reported between.
pub asked : Breaker → List ℕ → Breaker × ℕ
asked b [] = (b, 0)
asked b (now ∷ times) =
    let (b', granted) = allow b now in
    let (b'', n) = asked b' times in (b'', if granted then suc n else n)

-- In the half-open state with a probe out, no request passes.
pub asked_probing :
    (b : Breaker) (times : List ℕ)
    → b.state ≡ half_open
    → b.probe_in_flight ≡ true
    → asked b times ≡ (b, 0)
unfolding asked allow
asked_probing b [] e p = refl
asked_probing b (now ∷ times) e p = ground (arith, asked_probing b times e p)

-- A breaker that is open or half-open admits at most one request until an outcome is reported,
-- whatever the number of requests and the times at which they ask.
pub asked_once : (b : Breaker) (times : List ℕ) → b.state ≢ closed → (asked b times).1 ≤ 1
unfolding asked allow
asked_once b [] h = omega arith
asked_once b (now ∷ times) h = ground (
  arith,
  asked_once b times h,
  asked_probing (record b { state = half_open; successes = 0; probe_in_flight = true }) times,
  asked_probing (record b { probe_in_flight = true }) times,
)

-- An open breaker whose cooldown has not passed at any of the given times admits nothing and
-- stays as it was.
pub asked_cooling :
    (b : Breaker) (times : List ℕ)
    → b.state ≡ opened
    → All (λ now. now < b.opened_at + b.cooldown) times
    → asked b times ≡ (b, 0)
unfolding asked allow
asked_cooling b [] e h = refl
asked_cooling b (now ∷ times) e h = ground (arith, asked_cooling b times e h.1)

-- `Open`, which metrics read, says that a breaker refuses exactly when `Allow` would refuse for the
-- cooldown; the other refusal of `Allow` is of a second probe.
pub allow-refusing :
    (b : Breaker) (now : ℕ)
    → ((allow b now).1 ≡ false)
      ↔ ((refusing b now ≡ true) ⊎ ((b.state ≡ half_open) × (b.probe_in_flight ≡ true)))
unfolding allow refusing
allow-refusing b now = (λ h. ground arith, λ h. ground arith)
