-- ===== src/Router/Selection/Tests.antt =====
-- Selection at a concrete input, with floats that are whole numbers.

use model_gateway.Common.{ℕ, ◌+◌, ◌-◌, ◌*◌, ◌/◌, ◌^◌, min, max, [], ◌∷◌, some, ltb, leb}
use model_gateway.Common.Int.{pos, pos_part}
use model_gateway.Core.Catalog.{Deployment}
use model_gateway.Core.Snapshot.{GlobalLayer}
use model_gateway.Core.Snapshot.Lookups.{resolve_alias}
use model_gateway.Router.Breaker.{new_breaker}
use model_gateway.Router.Floats.{Floats}
use model_gateway.Router.Selection.{
  Candidate, Router, SelectionInput, Objective, Providers, offered, select,
}
use model_gateway.Router.Selection.Eligible.{Selects, select-Selects}

abbrev pub whole : Floats ℕ
whole = record {
  decimal = λ (n d : ℕ). n / d;
  of_int = pos_part;
  plus = ◌+◌;
  minus = ◌-◌;
  times = ◌*◌;
  over = ◌/◌;
  exp2 = λ (n : ℕ). 2 ^ n;
  least = min;
  most = max;
  greater = λ (a b : ℕ). ltb b a;
  at_most = leb;
}

abbrev pub llama : Deployment
llama = record {
  id = "llama-east";
  key = record { base_model = "llama"; adapter_id = "" };
  provider = "vllm";
  endpoint = "";
  region = "east";
  trust_tier = 3;
  credential_ref = "";
  weight = 100;
  shadow_percent = 0;
  cost = record {
    input_per_1k = pos 0;
    output_per_1k = pos 0;
    cached_input_per_1k = pos 0;
    cache_write_per_1k = pos 0;
  };
  capabilities = [];
}

abbrev pub catalogue : GlobalLayer
catalogue = record {
  version = record { number = 1; digest = "g1" };
  built_at = 0;
  deployments = ("llama-east", llama) ∷ [];
  shadows = [];
  by_route = (record { base_model = "llama"; adapter_id = "" }, llama ∷ []) ∷ [];
  aliases = [];
  tenant_by_prefix = [];
  plugins = [];
  guardrails = [];
  policy = [];
  policy_bundle_ref = "";
}

abbrev asked : SelectionInput
asked = record {
  snapshot = record { global = catalogue; tenants = [] };
  tenant = "acme";
  model = "llama";
  endpoint = "chat";
  min_trust_tier = 2;
  required = [];
  objective = Objective.balanced;
  region = "";
  reference_tokens = pos 0;
}

abbrev pub idle : Router ℕ
idle = record {
  max_attempts = 3;
  backoff = 0;
  fresh_breaker = new_breaker [];
  half_life = 0;
  breakers = [];
  health = [];
}

abbrev pub vllm : Providers
vllm provider = some ("chat" ∷ [])

select-Selects_example :
    Selects whole vllm asked
      (offered asked.snapshot (resolve_alias asked.snapshot asked.tenant asked.model))
      (select whole idle vllm (λ n. 7) 0 asked).1
select-Selects_example = select-Selects whole idle vllm (λ n. 7) 0 asked

abbrev pub scored : ℕ → Candidate ℕ
scored n = record { deployment = llama; score = n; health = n }
