-- ===== src/Guardrails/Tests.antt =====
-- A chain of two guardrails at a concrete input: "alert" is off the request path, and "secrets" has
-- no answer in time.
use model_gateway.Common.{
  ℕ, ◌≡◌, refl, Bool, true, false, String, String_comparable, [], ◌∷◌, Option, some, Memᴰ,
}
use model_gateway.Core.Errors.{Result, err, outside}
use model_gateway.Core.Guardrail.{
  phase_request, fail_open, fail_closed, FailureMode, GuardrailInput, GuardrailResult,
  GuardrailBinding,
}
use model_gateway.Guardrails.{
  Chain, Registry, Job, pick, judged, dispatch, on_failure, on_answer, evaluate, visit, run_from,
}
use model_gateway.Guardrails.Blocking.{Unavailable, run-denied, run-Unavailable}

abbrev answers : ℕ → String → ℕ → GuardrailInput → Result (Option GuardrailResult)
answers n component timeout input = err (outside "context deadline exceeded")

abbrev registry : Registry
registry = record { installed = λ component. true; inspect = answers }

abbrev bound_as : String → Bool → FailureMode → GuardrailBinding
bound_as name blocking mode = record {
  component = name;
  version = "1";
  config_ref = "";
  execution = "";
  wasm_module = "";
  budget = record { timeout = 0; mode = mode; blocking = blocking; phases = [] };
}

abbrev alert : GuardrailBinding
alert = bound_as "alert" false fail_open

abbrev secrets : GuardrailBinding
secrets = bound_as "secrets" true fail_closed

abbrev lenient : GuardrailBinding
lenient = bound_as "lenient" true fail_open

abbrev asked : GuardrailInput
asked = record {
  phase = phase_request;
  request_id = "r1";
  class = "";
  tier = 3;
  payload = 1 ∷ 2 ∷ [];
}

abbrev idle : Chain
idle = record {
  evaluated = 0;
  denied = 0;
  mutated = 0;
  failed_open = 0;
  failed_shut = 0;
  skipped = 0;
  off_path_limit = 1;
  off_path = [];
}

refused : (run_from registry idle (alert ∷ secrets ∷ []) asked (1 ∷ 2 ∷ [])).1.denied ≡ true
unfolding run_from visit evaluate judged dispatch on_answer on_failure
refused = refl

run-denied_example :
    (b : GuardrailBinding) × Memᴰ b (alert ∷ secrets ∷ [])
    × ((run_from registry idle (alert ∷ secrets ∷ []) asked (1 ∷ 2 ∷ [])).1.reason ≡ b.component)
    × (b.budget.blocking ≡ true)
run-denied_example = run-denied registry idle (alert ∷ secrets ∷ []) asked (1 ∷ 2 ∷ []) refused

never_answers : Unavailable registry "secrets"
never_answers = Unavailable.failing (λ n timeout input. (outside "context deadline exceeded", refl))

run-Unavailable_example :
    (run_from registry idle (alert ∷ secrets ∷ []) asked (1 ∷ 2 ∷ [])).1.denied ≡ true
run-Unavailable_example =
    run-Unavailable registry idle (alert ∷ secrets ∷ []) asked (1 ∷ 2 ∷ []) secrets
      (Memᴰ.tail (Memᴰ.head refl)) refl refl never_answers

let_through :
    (run_from registry idle (alert ∷ lenient ∷ alert ∷ []) asked (1 ∷ 2 ∷ [])).1.denied ≡ false
unfolding run_from visit evaluate judged dispatch on_answer on_failure
let_through = refl

abbrev alerting : Job
alerting = record { binding = alert; input = asked }

abbrev busy : Chain
busy = record idle { off_path = alerting ∷ [] }

picked : pick busy.off_path 0 ≡ some (alerting, [])
unfolding pick
picked = refl
