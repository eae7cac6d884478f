-- ===== src/Gateway/Staleness/Tests.antt =====
-- applyPolicy over the cache, where a tenant's policy changes from one that denies to another.
use model_gateway.Common.{ℕ, ◌≡◌, refl, List, [], ◌∷◌, none, false, lookup}
use model_gateway.Common.Int.{pos}
use model_gateway.Core.Errors.{ok}
use model_gateway.Core.Snapshot.{Snapshot}
use model_gateway.Core.Snapshot.Lookups.{global_version, policy}
use model_gateway.Gateway.{Request, Gate, Services, responded}
use model_gateway.Gateway.Stages.{policy_input, decided, apply_policy}
use model_gateway.Gateway.Staleness.{apply_policy_stale}
use model_gateway.Gateway.Tests.{alice, acme, live, answered, clean}
use model_gateway.Limits.Limiter.{allowed_decision}
use model_gateway.Policy.{Cache, new_cache, probe, get_bundle, evaluate}
use model_gateway.Policy.Tests.{numbers, unmarshal, denying, decoded}
use model_gateway.Router.Selection.Tests.{idle, vllm}

abbrev World : Type 0
World = Cache numbers unmarshal

-- Services whose policy service is the cache.
abbrev cache_services : Services numbers World
cache_services = record {
  region = "east";
  key_lookup = λ secret. secret;
  policy_for = λ c tenant digest raw. get_bundle numbers unmarshal c (λ x. x) tenant digest raw;
  admit = λ w p. (w, allowed_decision);
  release = λ w p. w;
  record_tokens = λ w p n. w;
  inspect = λ w bindings input. (w, ok clean);
  providers = vllm;
  resolve = λ w ref. (w, ok "secret");
  invoke = λ w d meta body credential. (w, responded answered none);
  patterns = λ kind text. [];
  hashed = λ m. [];
  placeholders = λ text. [];
  deep = none;
  vault = none;
  mirrors = false;
}

abbrev with_policy : List ℕ → Snapshot
with_policy raw = record live { tenants = ("acme", record acme { policy = raw }) ∷ [] }

abbrev from_lan : Request numbers
from_lan = record {
  meta = record {
    request_id = "r1";
    model = "opus";
    endpoint = "chat";
    payload_bytes = pos 2;
    source_ip = 12;
    deadline = 0;
  };
  api_key = [];
  body = [];
  deep_inspection = false;
}

abbrev cold : Gate ℕ World
cold = record { world = new_cache numbers unmarshal; router = idle; log = [] }

nothing_cached :
    probe numbers unmarshal cold.world "acme" (global_version (with_policy (2 ∷ []))).digest ≡ none
unfolding probe lookup
nothing_cached = refl

has_policy : (n : ℕ) → policy (with_policy (n ∷ [])) "acme" ≡ n ∷ []
unfolding policy lookup
has_policy n = refl

apply_policy_stale_example :
    (apply_policy cache_services
      (with_policy (1 ∷ []))
      alice
      from_lan
      (apply_policy cache_services (with_policy (2 ∷ [])) alice from_lan cold).0).1
    ≡ decided cache_services (with_policy (1 ∷ [])) alice from_lan (
        evaluate numbers denying
          (policy_input cache_services (with_policy (1 ∷ [])) alice from_lan))
unfolding policy lookup
apply_policy_stale_example =
    apply_policy_stale numbers unmarshal cache_services (λ c tenant digest raw. refl)
      (with_policy (2 ∷ [])) (with_policy (1 ∷ [])) alice from_lan from_lan cold denying refl refl
      refl nothing_cached decoded
