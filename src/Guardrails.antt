-- ===== src/Guardrails.antt =====
-- dataplane/internal/guardrails/chain.go: the chain of guardrails. The guardrails themselves are a
-- parameter: which components are installed, and what each answers. A timeout is one of the errors.
pub mod Blocking
pub mod Counters
mod Tests
use model_gateway.Common.{
  ℕ, zero, suc, String, Bool, true, false, not, ◌&&◌, List, [], ◌∷◌, ◌++◌, Option, none, some, eqb,
  ltb, length, if◌then◌else◌, is_some,
}
use model_gateway.Core.Errors.{Error, Result, ok, err, internal, newf, text}
use model_gateway.Core.Guardrail.{
  Verdict, verdict_allow, verdict_deny, verdict_mutate, FailureMode, fail_open, fail_closed,
  Payload, GuardrailInput, GuardrailResult, GuardrailBinding,
}

-- 50 milliseconds.
abbrev pub default_timeout : ℕ
default_timeout = 50_000_000

pub record Outcome : Type 0 where
  pub payload : Payload
  pub denied : Bool
  pub reason : String

-- An evaluation off the request path, with its copy of the input.
pub record Job : Type 0 where
  pub binding : GuardrailBinding
  pub input : GuardrailInput

-- Chain: its counters, the capacity of `offPath`, and the evaluations that hold a place in it.
pub record Chain : Type 0 where
  pub evaluated : ℕ
  pub denied : ℕ
  pub mutated : ℕ
  pub failed_open : ℕ
  pub failed_shut : ℕ
  pub skipped : ℕ
  pub off_path_limit : ℕ
  pub off_path : List Job

-- The registry, and what the n-th inspection of the chain answers under a timeout; a nil result is
-- `none`.
pub record Registry : Type 0 where
  pub installed : String → Bool
  pub inspect : ℕ → String → ℕ → GuardrailInput → Result (Option GuardrailResult)

abbrev pub is_fail_closed : FailureMode → Bool
is_fail_closed fail_open = false
is_fail_closed fail_closed = true

abbrev pub is_mutate : Verdict → Bool
is_mutate verdict_mutate = true
is_mutate _ = false

-- A Go `[]byte` that may be nil, read as bytes.
abbrev pub bytes_of : Option Payload → Payload
bytes_of none = []
bytes_of (some p) = p

-- The checks of evaluate on what Inspect returned.
unfoldable pub judged : String → Result (Option GuardrailResult) → Result GuardrailResult
judged component (err e) = err e
judged component (ok none) =
    err (newf internal "guardrail %q returned no result and no error" (text component ∷ []))
judged component (ok (some r)) =
    if is_mutate r.verdict && not (is_some r.payload)
    then err
        (newf internal "guardrail %q asked to mutate but returned no payload" (text component ∷ []))
    else ok r

-- Chain.dispatch, up to the start of the goroutine.
unfoldable pub dispatch : Chain → GuardrailBinding → GuardrailInput → Chain
dispatch c b input =
    if ltb (length c.off_path) c.off_path_limit
    then record c { off_path = record { binding = b; input = input } ∷ c.off_path }
    else record c { skipped = suc c.skipped }

-- The i-th of the evaluations off the path, and the others.
unfoldable pub pick : List Job → ℕ → Option (Job × List Job)
pick [] i = none
pick (j ∷ js) zero = some (j, js)
pick (j ∷ js) (suc i) = elim (pick js i) [ none ↦ none | some (k, rest) ↦ some (k, j ∷ rest) ]

-- What the goroutine of dispatch counts; a verdict other than allow is only logged.
unfoldable pub count_off_path : Chain → Result GuardrailResult → Chain
count_off_path c (err e) = record c { failed_open = suc c.failed_open }
count_off_path c (ok r) = c

-- What one binding does to a request: the chain stops, or goes on with a payload.
pub data Next : Type 0 where
  stops : Next
  goes : Payload → Next

-- Run's treatment of a failed blocking inspection.
unfoldable pub on_failure : Chain → GuardrailBinding → Payload → Chain × Next
on_failure c b payload =
    if is_fail_closed b.budget.mode
    then (record c { failed_shut = suc c.failed_shut }, stops)
    else (record c { failed_open = suc c.failed_open }, goes payload)

-- Run's treatment of a verdict.
unfoldable pub on_verdict : Chain → Verdict → Option Payload → Payload → Chain × Next
on_verdict c verdict_deny replaced payload = (record c { denied = suc c.denied }, stops)
on_verdict c verdict_mutate replaced payload =
    (record c { mutated = suc c.mutated }, goes (bytes_of replaced))
on_verdict c verdict_allow replaced payload = (c, goes payload)

unfoldable pub on_answer :
    Chain → GuardrailBinding → Payload → Result GuardrailResult → Chain × Next
on_answer c b payload (err e) = on_failure c b payload
on_answer c b payload (ok r) = on_verdict c r.verdict r.payload payload

-- Run's treatment of a component that is not installed.
unfoldable pub on_missing : Chain → GuardrailBinding → Payload → Chain × Next
on_missing c b payload =
    if is_fail_closed b.budget.mode && b.budget.blocking
    then (record c { skipped = suc c.skipped; failed_shut = suc c.failed_shut }, stops)
    else (record c { skipped = suc c.skipped }, goes payload)

module _ (registry : Registry) where
  -- Chain.evaluate
  unfoldable pub evaluate :
      Chain → GuardrailBinding → GuardrailInput → Chain × Result GuardrailResult
  evaluate c b input =
      let timeout = if eqb b.budget.timeout 0 then default_timeout else b.budget.timeout in
      (
        record c { evaluated = suc c.evaluated },
        judged b.component (registry.inspect c.evaluated b.component timeout input),
      )

  finish_picked : Chain → Option (Job × List Job) → Chain
  finish_picked c none = c
  finish_picked c (some (j, rest)) =
      let (c', answer) = evaluate (record c { off_path = rest }) j.binding j.input in
      count_off_path c' answer

  -- The goroutine of dispatch, for the i-th of the evaluations off the path.
  unfoldable pub finish_off_path : Chain → ℕ → Chain
  unfolding finish_picked
  finish_off_path c i = finish_picked c (pick c.off_path i)

  -- The body of Run's loop.
  unfoldable pub visit : Chain → GuardrailBinding → GuardrailInput → Payload → Chain × Next
  visit c b input payload =
      let given = record input { payload = payload } in
      let (c', answer) = evaluate c b given in
      if not (registry.installed b.component)
      then on_missing c b payload
      else if not b.budget.blocking
      then (dispatch c b given, goes payload)
      else on_answer c' b payload answer

  -- Chain.Run, from a payload on.
  unfoldable pub run_from :
      Chain → List GuardrailBinding → GuardrailInput → Payload → Chain × Outcome
  run_from c [] input payload = (c, record { payload = payload; denied = false; reason = "" })
  run_from c (b ∷ bs) input payload =
      let (c', next) = visit c b input payload in
      elim next [
        | stops ↦ (c', record { payload = payload; denied = true; reason = b.component })
        | goes p ↦ run_from c' bs input p
      ]

  -- Chain.Run
  abbrev pub run : Chain → List GuardrailBinding → GuardrailInput → Chain × Outcome
  run c bs input = run_from c bs input input.payload
