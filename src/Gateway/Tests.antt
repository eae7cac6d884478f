-- ===== src/Gateway/Tests.antt =====
-- The pipeline at a concrete input. The world of the services counts the slots that are taken.
use model_gateway.Common.{
  ℕ, ◌+◌, ◌-◌, ◌≡◌, refl, String, true, false, [], ◌∷◌, ◌++◌, none, some, lookup,
}
use model_gateway.Common.Int.{pos}
use model_gateway.Core.Catalog.{Deployment}
use model_gateway.Core.Errors.{Error, Result, ok, err, outside, newf, text, guardrail_denied}
use model_gateway.Core.Guardrail.{GuardrailBinding, inspects, fail_closed}
use model_gateway.Core.Identity.{Principal, parse_api_key, after_prefix, cut, permits, validate}
use model_gateway.Core.Snapshot.Lookups.{
  principal, policy, first_denied, guardrails, min_trust_tier,
}
use model_gateway.Core.Snapshot.{Snapshot, TenantLayer}
use model_gateway.Gateway.{
  responded, RequestMeta, Request, Event, admitted, Gate, ProviderResponse, Services, Readings,
}
use model_gateway.Gateway.Accounting.{Accounted, Reports, handle-Accounted}
use model_gateway.Gateway.Floors.{Raised, admit-Raised}
use model_gateway.Gateway.Handling.{handle}
use model_gateway.Gateway.Ledger.{ledger}
use model_gateway.Gateway.Shadowing.{ShadowRequest, shadow_call}
use model_gateway.Gateway.Shadows.{SentBare, shadow_call-SentBare}
use model_gateway.Gateway.Stages.{
  recognised, authenticate, affordable, apply_policy, limited, admit, verdict, guard,
}
use model_gateway.Gateway.Streaming.{StreamResult, unstarted, handle_stream, finish}
use model_gateway.Gateway.Streams.{
  Opened, handle_stream-Opened, finish_once, handle_stream_strands_slot,
}
use model_gateway.Guardrails.{Outcome}
use model_gateway.Limits.Limiter.{allowed_decision}
use model_gateway.Pii.{Bytes}
use model_gateway.Policy.{Netip}
use model_gateway.Router.Execution.Tests.{reading, alone}
use model_gateway.Router.Selection.Tests.{whole, llama, catalogue, idle, vllm}

abbrev nowhere : Netip
nowhere = record {
  Addr = ℕ;
  Prefix = ℕ;
  is_valid = λ (a : ℕ). false;
  covers = λ (p a : ℕ). false;
  parse_prefix = λ (s : String). err (outside "netip.ParsePrefix");
}

abbrev pub alice : Principal
alice = record {
  key_id = "alice";
  tenant = "acme";
  org = "";
  team = "";
  user = "";
  app = "";
  roles = [];
  models = record { allow_all = true; names = [] };
  budgets = [];
  default_class = "restricted";
  min_trust_tier = 1;
  limits = record { requests_per_minute = 0; tokens_per_minute = 0; max_concurrent = 0 };
  deprecated = false;
  not_after = 0;
}

abbrev secrets : GuardrailBinding
secrets = record {
  component = "secrets";
  version = "1";
  config_ref = "";
  execution = "";
  wasm_module = "";
  budget = record { timeout = 1; mode = fail_closed; blocking = true; phases = [] };
}

abbrev pub acme : TenantLayer
acme = record {
  tenant = "acme";
  version = record { number = 1; digest = "t1" };
  built_at = 0;
  tier = "standard";
  principals = ("alice", alice) ∷ [];
  keys = ((b's' ∷ []), "alice") ∷ [];
  aliases = [];
  budgets = [];
  plugins = [];
  guardrails = secrets ∷ [];
  policy = [];
  min_trust_tier = 2;
}

abbrev pub live : Snapshot
live = record {
  global = record catalogue { tenant_by_prefix = ((b'a' ∷ []), "acme") ∷ [] };
  tenants = ("acme", acme) ∷ [];
}

abbrev pub answered : ProviderResponse
answered = record {
  status_code = 200;
  body = [];
  usage = record { input = pos 5; cached_input = pos 0; cache_write = pos 0; output = pos 7 };
}

-- Services whose guardrails give one outcome.
abbrev services : Outcome → Services nowhere ℕ
services outcome = record {
  region = "east";
  key_lookup = λ secret. secret;
  policy_for = λ w tenant digest raw. (w, err (outside "no policy"));
  admit = λ w p. (w + 1, allowed_decision);
  release = λ w p. w - 1;
  record_tokens = λ w p n. w;
  inspect = λ w bindings input. (w, ok outcome);
  providers = vllm;
  resolve = λ w ref. (w, ok "secret");
  invoke = λ w d meta body credential. (w, responded answered none);
  patterns = λ kind text. [];
  hashed = λ m. [];
  placeholders = λ text. [];
  deep = none;
  vault = none;
  mirrors = false;
}

abbrev pub clean : Outcome
clean = record { payload = b'h' ∷ b'i' ∷ []; denied = false; reason = "" }

abbrev leaked : Outcome
leaked = record { payload = []; denied = true; reason = "secret" }

abbrev ask : Request nowhere
ask = record {
  meta = record {
    request_id = "r1";
    model = "llama";
    endpoint = "chat";
    payload_bytes = pos 2;
    source_ip = 0;
    deadline = 0;
  };
  api_key = b'g' ∷ b'w' ∷ b'_' ∷ b'a' ∷ b'_' ∷ b's' ∷ [];
  body = b'h' ∷ b'i' ∷ [];
  deep_inspection = false;
}

abbrev now : Readings ℕ
now = record { now = 7; clock = λ n. 7; draw = 0; turns = reading; meanwhile = alone }

abbrev gate : Gate ℕ ℕ
gate = record { world = 0; router = idle; log = [] }

-- A stream is a number here.
abbrev connect : ℕ → Deployment → RequestMeta nowhere → Bytes → String → ℕ × Result ℕ
connect w d meta body credential = (w, ok 9)

handle-Accounted_example :
    Accounted "r1"
      (ledger [])
      (ledger (handle whole (services clean) live now ask gate).0.log)
      (handle whole (services clean) live now ask gate).1.1
handle-Accounted_example = handle-Accounted whole (services clean) live now ask gate

handle_stream-Opened_example :
    Opened "r1"
      (ledger [])
      (ledger (handle_stream whole (services clean) live now connect ask gate).0.log)
      (handle_stream whole (services clean) live now connect ask gate).1.0
      (handle_stream whole (services clean) live now connect ask gate).1.1
handle_stream-Opened_example = handle_stream-Opened whole (services clean) live now connect ask gate

abbrev underway : StreamResult nowhere ℕ
underway = record (unstarted {S = ℕ} {net = nowhere} alice) {
  holds = some (alice, ask);
  started = some (record { chunks = 9; served = llama; redactions = 0 });
}

finish_once_example :
    Reports "r1"
      (ledger [] ++ Event.released alice ∷ [])
      (ledger
        (finish whole (services clean) live now connect underway answered.usage none gate).0.log)
      none
    × (finish whole
          (services clean)
          live
          now
          connect
          (finish whole (services clean) live now connect underway answered.usage none gate).1
          answered.usage
          none
          gate
        ≡ (
          gate,
          (finish whole (services clean) live now connect underway answered.usage none gate).1,
        ))
finish_once_example =
    finish_once whole (services clean) live now connect underway answered.usage none gate alice ask
      (record { chunks = 9; served = llama; redactions = 0 }) answered.usage none gate refl refl
      refl

abbrev refusal : Error
refusal = newf guardrail_denied "request refused by the %s guardrail" (text "secret" ∷ [])

alice_enters : authenticate (services leaked) live 7 ask ≡ ok alice
unfolding authenticate parse_api_key after_prefix cut recognised lookup principal validate
alice_enters = refl

alice_is_admitted : (admit (services leaked) live alice ask gate).1 ≡ ok (alice, ask)
unfolding admit permits affordable apply_policy policy lookup first_denied limited
alice_is_admitted = refl

alice_is_let_in : (admit (services clean) live alice ask gate).1 ≡ ok (alice, ask)
unfolding admit permits affordable apply_policy policy lookup first_denied limited
alice_is_let_in = refl

alice_is_refused :
    (guard (services leaked) live alice ask (admit (services leaked) live alice ask gate).0).1
    ≡ err refusal
unfolding guard guardrails lookup inspects verdict
alice_is_refused = refl

handle_stream_strands_slot_example :
    Reports "r1"
      (ledger [] ++ admitted alice ∷ [])
      (ledger (handle_stream whole (services leaked) live now connect ask gate).0.log)
      (some refusal)
    × ((handle_stream whole (services leaked) live now connect ask gate).1.1 ≡ some refusal)
handle_stream_strands_slot_example =
    handle_stream_strands_slot whole (services leaked) live now connect ask gate alice alice ask
      refusal alice_enters alice_is_admitted alice_is_refused

admit-Raised_example : Raised (services clean) live alice ask alice ask
admit-Raised_example = admit-Raised (services clean) live alice alice ask ask gate alice_is_let_in

abbrev mirrored_ask : ShadowRequest nowhere
mirrored_ask = record {
  meta = ask.meta;
  body = ask.body;
  tenant = "acme";
  principal = "alice";
  tier = "standard";
  snapshot_version = 1;
  budget_ids = [];
}

shadow_call-SentBare_example :
    SentBare llama ask.body [] (shadow_call (services clean) llama mirrored_ask gate).0.log
shadow_call-SentBare_example =
    shadow_call-SentBare (services clean) llama mirrored_ask gate ("chat" ∷ []) "secret" refl refl
