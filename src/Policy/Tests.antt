-- ===== src/Policy/Tests.antt =====
-- A policy at concrete inputs. Here an address is 0 where it is unknown, and a block of addresses is
-- the number of its least and that of its greatest address; only "lan" names a block.
use model_gateway.Common.{
  ℕ, String, String_comparable, ◌≡◌, refl, ◌↔◌, false, ◌&&◌, List, [], ◌∷◌, ltb, leb, if◌then◌else◌,
  ◌==◌, lookup, arith,
}
use model_gateway.Core.Errors.{Result, ok, err, outside}
use model_gateway.Policy.{
  Netip, effect_allow, effect_deny, effect_unset, Rule, Bundle, Input, PolicyBundle, evaluate,
  decode, decode_rules, decode_rule, decode_nets, decode_effect, decode_tier, new_cache, get_bundle,
  decode_message,
}
use model_gateway.Policy.Table.{Refused, evaluate_refuses}
use model_gateway.Policy.Decoding.{Each, decode-Each}
use model_gateway.Policy.Caching.{Current, get_bundle-Current}

abbrev parse : String → Result (ℕ × ℕ)
parse s = if s == "lan" then ok (10, 19) else err (outside "netip.ParsePrefix")

abbrev pub numbers : Netip
numbers = record {
  Addr = ℕ;
  Prefix = ℕ × ℕ;
  is_valid = λ (a : ℕ). ltb 0 a;
  covers = λ (p : ℕ × ℕ) (a : ℕ). leb p.0 a && leb a p.1;
  parse_prefix = parse;
}

abbrev lan_only : Rule numbers
lan_only = record {
  id = "lan-only";
  effect = effect_deny;
  models = "opus" ∷ [];
  endpoints = [];
  roles = [];
  regions = [];
  source_nets = (10, 19) ∷ [];
  max_payload_bytes = 0;
  data_class = "";
  min_trust_tier = 0;
  deep_inspection = false;
  reason = "not from here";
}

abbrev anyone : Rule numbers
anyone = record lan_only { id = "anyone"; effect = effect_allow; models = []; source_nets = [] }

abbrev request : Input numbers
request = record {
  model = "haiku";
  endpoint = "chat";
  roles = [];
  region = "";
  source = 12;
  payload = 3;
}

abbrev unplaced : Input numbers
unplaced = record request { model = "opus"; source = 0 }

abbrev table : Bundle numbers
table = record {
  id = "b";
  version = 1;
  rules = lan_only ∷ anyone ∷ [];
  default_effect = effect_unset;
}

evaluate_refuses_example :
    (((evaluate numbers table request).allowed ≡ false)
      × ((evaluate numbers table request).rule_id ≡ "lan-only"))
    ↔ Refused numbers request effect_unset "lan-only" (lan_only ∷ anyone ∷ [])
evaluate_refuses_example = evaluate_refuses numbers table request "lan-only"

-- A wire format: the first byte is the number of the effect of the only rule.
abbrev message : ℕ → PolicyBundle
message effect = record {
  id = "b";
  version = 1;
  rules =
      record {
        id = "lan-only";
        effect = effect;
        models = "opus" ∷ [];
        endpoints = [];
        roles = [];
        regions = [];
        source_cidrs = "lan" ∷ [];
        max_payload_bytes = 0;
        data_class = "";
        min_trust_tier = 0;
        deep_inspection = false;
        reason = "not from here";
      }
      ∷ [];
  default_effect = 0;
}

abbrev pub unmarshal : List ℕ → Result PolicyBundle
unmarshal [] = err (outside "empty")
unmarshal (effect ∷ rest) = ok (message effect)

abbrev pub denying : Bundle numbers
denying = record table { rules = lan_only ∷ [] }

pub decoded : decode numbers unmarshal (2 ∷ []) ≡ ok denying
unfolding decode decode_message decode_rules decode_rule decode_nets decode_effect decode_tier
decoded = refl

decode-Each_example :
    (msg : PolicyBundle) × (unmarshal (2 ∷ []) ≡ ok msg) × Each numbers msg.rules (lan_only ∷ [])
decode-Each_example = decode-Each numbers unmarshal (2 ∷ []) denying decoded refl

-- A tenant's bytes that never change.
abbrev constant : String → String → List ℕ
constant tenant digest = 2 ∷ []

empty_is_Current : Current numbers unmarshal constant (new_cache numbers unmarshal)
unfolding lookup
empty_is_Current = record { held = λ tenant b e. ground arith }

get_bundle-Current_example :
    ((get_bundle numbers unmarshal (new_cache numbers unmarshal) (λ c. c) "acme" "g1" (2 ∷ [])).1
      ≡ decode numbers unmarshal (2 ∷ []))
    × Current numbers unmarshal constant
        (get_bundle numbers unmarshal (new_cache numbers unmarshal) (λ c. c) "acme" "g1" (2 ∷ [])).0
get_bundle-Current_example =
    get_bundle-Current numbers unmarshal constant (new_cache numbers unmarshal) (λ c. c) "acme" "g1"
      empty_is_Current empty_is_Current
