-- ===== src/Router/Breaker/Recovery.antt =====
-- How a breaker opens, and how it closes again.
use model_gateway.Common.{
  ℕ, zero, suc, ◌+◌, ◌-◌, ◌≤◌, ◌<◌, ◌≡◌, subst, Bool, true, false, List, [], ◌∷◌, arith,
}
use model_gateway.Router.Breaker.{
  State, Breaker, closed, opened, half_open, Call, allows, fails, succeeds, allow, succeed, fail,
  step, run,
}

abbrev pub is_closed : State → Bool
is_closed closed = true
is_closed _ = false

-- `n` failures in a row, all at one time.
abbrev pub outage : ℕ → ℕ → List Call
outage zero now = []
outage (suc n) now = fails now ∷ outage n now

fail_closed :
    (b : Breaker) (now k : ℕ)
    → b.state ≡ closed
    → b.failures + suc (suc k) ≡ b.failure_threshold
    → ((step b (fails now)).state ≡ closed)
      × ((step b (fails now)).failures + suc k ≡ (step b (fails now)).failure_threshold)
unfolding step
fail_closed b now k e h = ground arith

fail_last :
    (b : Breaker) (now : ℕ)
    → b.state ≡ closed
    → b.failures + 1 ≡ b.failure_threshold
    → ((step b (fails now)).state ≡ opened) × ((step b (fails now)).opened_at ≡ now)
unfolding step
fail_last b now e h = ground arith

-- A closed breaker opens on the failure that brings the consecutive count to its threshold, where
-- no success comes between, and its cooldown starts then.
pub run-outage :
    (k : ℕ) (b : Breaker) (now : ℕ)
    → b.state ≡ closed
    → b.failures + suc k ≡ b.failure_threshold
    → ((run b (outage (suc k) now)).state ≡ opened) × ((run b (outage (suc k) now)).opened_at ≡ now)
unfolding run
run-outage zero b now e h = fail_last b now e h
run-outage (suc k) b now e h =
    let (e', h') = fail_closed b now k e h in run-outage k (step b (fails now)) now e' h'

-- `n` probes in a row, each of which asks to be let through and succeeds.
abbrev pub probes : ℕ → ℕ → List Call
probes zero now = []
probes (suc n) now = allows now ∷ succeeds ∷ probes n now

record Probing (b : Breaker) (k : ℕ) : Type 0 where
  here : b.state ≡ half_open
  free : b.probe_in_flight ≡ false
  left : b.successes + k ≡ b.half_open_successes

probe_more :
    (b : Breaker) (now k : ℕ)
    → Probing b (suc (suc k))
    → ((allow b now).1 ≡ true) × Probing (succeed (allow b now).0) (suc k)
unfolding allow succeed
probe_more b now k p = (ground arith, ground arith)

probe_last : (b : Breaker) (now : ℕ) → Probing b 1 → (succeed (allow b now).0).state ≡ closed
unfolding allow succeed
probe_last b now p = ground arith

probe_rounds :
    (k : ℕ) (b : Breaker) (now : ℕ)
    → Probing b (suc k)
    → (run b (probes (suc k) now)).state ≡ closed
unfolding run step
probe_rounds zero b now p = probe_last b now p
probe_rounds (suc k) b now p = probe_rounds k (succeed (allow b now).0) now (probe_more b now k p).1

first_probe :
    (b : Breaker) (now k : ℕ)
    → b.state ≡ opened
    → b.opened_at + b.cooldown ≤ now
    → b.half_open_successes ≡ suc (suc k)
    → Probing (succeed (allow b now).0) (suc k)
unfolding allow succeed
first_probe b now k e h n = ground arith

only_probe :
    (b : Breaker) (now : ℕ)
    → b.state ≡ opened
    → b.opened_at + b.cooldown ≤ now
    → b.half_open_successes ≡ 1
    → (succeed (allow b now).0).state ≡ closed
unfolding allow succeed
only_probe b now e h n = ground arith

close_all :
    (n : ℕ) (b : Breaker) (now : ℕ)
    → b.state ≡ opened
    → b.opened_at + b.cooldown ≤ now
    → b.half_open_successes ≡ suc n
    → (run b (probes (suc n) now)).state ≡ closed
unfolding run step
close_all zero b now e h n = only_probe b now e h n
close_all (suc k) b now e h n =
    probe_rounds k (succeed (allow b now).0) now (first_probe b now k e h n)

-- Probing goes on until the last probe.
probes_left :
    (m r k : ℕ) (b : Breaker) (now : ℕ)
    → k ≡ m + suc r
    → Probing b k
    → Probing (run b (probes m now)) (suc r)
unfolding run step
probes_left zero r k b now e p = let same : k ≡ suc r = omega (arith, e) in subst (Probing b) same p
probes_left (suc m) r k b now e p =
    let two_left : k ≡ suc (suc (m + r)) = omega (arith, e) in
    probes_left m r (suc (m + r)) (succeed (allow b now).0) now (omega arith)
      (probe_more b now (m + r) (subst (Probing b) two_left p)).1

-- The next probe is let through, and the breaker is not closed yet.
abbrev pub Asks : Breaker → ℕ → Type 0
Asks b now = ((allow b now).1 ≡ true) × (is_closed b.state ≡ false)

Probing-Asks : (b : Breaker) (now k : ℕ) → Probing b k → Asks b now
unfolding allow
Probing-Asks b now k p = (ground arith, ground arith)

opened-Asks :
    (b : Breaker) (now : ℕ) → b.state ≡ opened → b.opened_at + b.cooldown ≤ now → Asks b now
unfolding allow
opened-Asks b now e h = (ground arith, ground arith)

ask_all :
    (m n : ℕ) (b : Breaker) (now : ℕ)
    → b.state ≡ opened
    → b.opened_at + b.cooldown ≤ now
    → m ≤ n
    → b.half_open_successes ≡ suc n
    → Asks (run b (probes m now)) now
unfolding run step
ask_all zero n b now e h l w = opened-Asks b now e h
ask_all (suc m) n b now e h l w =
    let r = n - suc m in
    let more : b.half_open_successes ≡ suc (suc (m + r)) = omega (arith, w, l) in
    Probing-Asks (run (succeed (allow b now).0) (probes m now)) now (suc r) (
      probes_left m r (suc (m + r)) (succeed (allow b now).0) now (omega arith)
        (first_probe b now (m + r) e h more))

-- Once the cooldown of an open breaker has passed, it takes exactly as many successful probes as it is
-- configured for to close it: each of them is let through, those before it have left the breaker not
-- closed, and after the last it is closed.
pub run-probes :
    (m n : ℕ) (b : Breaker) (now : ℕ)
    → b.state ≡ opened
    → b.opened_at + b.cooldown ≤ now
    → m ≤ n
    → b.half_open_successes ≡ suc n
    → Asks (run b (probes m now)) now × ((run b (probes (suc n) now)).state ≡ closed)
run-probes m n b now e h l w = (ask_all m n b now e h l w, close_all n b now e h w)

-- A failed probe opens the breaker again at the time of the failure, so that it refuses for a whole
-- cooldown from then on.
pub fail_probe :
    (b : Breaker) (now later : ℕ)
    → b.state ≡ half_open
    → later < now + b.cooldown
    → allow (fail b now) later ≡ (fail b now, false)
unfolding allow fail
fail_probe b now later e h = ground arith
