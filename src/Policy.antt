-- ===== src/Policy.antt =====
-- dataplane/internal/policy: the decision table, its decoding and its cache. Addresses and blocks of
-- addresses are net/netip's, and the wire format is protobuf's: both are parameters.
pub mod Table
pub mod Decoding
pub mod Caching
pub mod Tests
use model_gateway.Common.{
  ℕ, String, String_comparable, Bool, true, false, not, ◌&&◌, List, [], ◌∷◌, Option, none, some,
  eqb, ltb, if◌then◌else◌, any, contains, Map, lookup, insert, ◌==◌,
}
use model_gateway.Core.Errors.{
  Error, Result, ok, err, ◌>>=◌, invalid_request, newf, wrap, wrapf, text, returned,
}
use model_gateway.Core.Trust.{trust_unset, trust_external, trust_private_cloud, trust_internal}
use model_gateway.Core.Identity.{is_empty}

pub data Effect : Type 0 where
  effect_unset effect_allow effect_deny : Effect

-- What the package uses of net/netip.
pub record Netip : Type 1 where
  pub Addr : Type 0
  pub Prefix : Type 0
  pub is_valid : Addr → Bool
  pub covers : Prefix → Addr → Bool  -- Prefix.Contains
  pub parse_prefix : String → Result Prefix

-- A decision never carries an address.
pub record Decision : Type 0 where
  pub allowed : Bool
  pub rule_id : String
  pub reason : String
  pub data_class : String
  pub min_trust_tier : ℕ
  pub deep_inspection : Bool

-- The messages of proto/gatewayv1 that Decode reads. An effect and a tier are the enums' numbers:
-- 1 and 2 are allow and deny; 1, 2 and 3 are external, private cloud and internal.
pub record PolicyRule : Type 0 where
  pub id : String
  pub effect : ℕ
  pub models : List String
  pub endpoints : List String
  pub roles : List String
  pub regions : List String
  pub source_cidrs : List String
  pub max_payload_bytes : ℕ
  pub data_class : String
  pub min_trust_tier : ℕ
  pub deep_inspection : Bool
  pub reason : String

pub record PolicyBundle : Type 0 where
  pub id : String
  pub version : ℕ
  pub rules : List PolicyRule
  pub default_effect : ℕ

-- hasAnyRole
unfoldable pub has_any_role : List String → List String → Bool
has_any_role required held = any (contains required) held

-- decodeEffect
unfoldable pub decode_effect : ℕ → Effect
decode_effect e = if eqb e 1 then effect_allow else if eqb e 2 then effect_deny else effect_unset

-- decodeTier
unfoldable pub decode_tier : ℕ → ℕ
decode_tier t =
    if eqb t 1
    then trust_external
    else if eqb t 2
    then trust_private_cloud
    else if eqb t 3
    then trust_internal
    else trust_unset

abbrev pub is_deny : Effect → Bool
is_deny effect_deny = true
is_deny _ = false

module _ (net : Netip) where
  pub record Rule : Type 0 where
    pub id : String
    pub effect : Effect
    pub models : List String
    pub endpoints : List String
    pub roles : List String
    pub regions : List String
    pub source_nets : List net.Prefix
    pub max_payload_bytes : ℕ
    pub data_class : String
    pub min_trust_tier : ℕ
    pub deep_inspection : Bool
    pub reason : String

  pub record Bundle : Type 0 where
    pub id : String
    pub version : ℕ
    pub rules : List Rule
    pub default_effect : Effect

  pub record Input : Type 0 where
    pub model : String
    pub endpoint : String
    pub roles : List String
    pub region : String
    pub source : net.Addr
    pub payload : ℕ

  -- inAnyNet
  unfoldable pub in_any_net : List net.Prefix → net.Addr → Bool
  in_any_net nets addr =
      if not (net.is_valid addr) then false else any (λ n. net.covers n addr) nets

  -- matches
  unfoldable pub matches : Rule → Input → Bool
  matches r i =
      if not (is_empty r.models) && not (contains r.models i.model)
      then false
      else if not (is_empty r.endpoints) && not (contains r.endpoints i.endpoint)
      then false
      else if not (is_empty r.regions) && not (contains r.regions i.region)
      then false
      else if ltb 0 r.max_payload_bytes && ltb r.max_payload_bytes i.payload
      then false
      else if not (is_empty r.roles) && not (has_any_role r.roles i.roles)
      then false
      else if not (is_empty r.source_nets) && not (in_any_net r.source_nets i.source)
      then false
      else true

  -- What a rule that matches decides.
  unfoldable pub decides : Rule → Decision
  decides r =
      if is_deny r.effect
      then record {
        allowed = false;
        rule_id = r.id;
        reason = r.reason;
        data_class = "";
        min_trust_tier = trust_unset;
        deep_inspection = false;
      }
      else record {
        allowed = true;
        rule_id = r.id;
        reason = "";
        data_class = r.data_class;
        min_trust_tier = r.min_trust_tier;
        deep_inspection = r.deep_inspection;
      }

  -- What the bundle decides where no rule matches.
  unfoldable pub by_default : Effect → Decision
  by_default e = record {
    allowed = not (is_deny e);
    rule_id = "";
    reason = "";
    data_class = "";
    min_trust_tier = trust_unset;
    deep_inspection = false;
  }

  -- The loop of Evaluate.
  unfoldable pub scan : List Rule → Effect → Input → Decision
  scan [] e i = by_default e
  scan (r ∷ rs) e i = let rest = scan rs e i in if not (matches r i) then rest else decides r

  -- Evaluate
  abbrev pub evaluate : Bundle → Input → Decision
  evaluate b i = scan b.rules b.default_effect i

  -- The loop of decodeRule over the networks.
  unfoldable pub decode_nets : String → List String → Result (List net.Prefix)
  decode_nets id [] = ok []
  decode_nets id (c ∷ cs) =
      let rest = decode_nets id cs in
      elim (net.parse_prefix c) [
        | err cause ↦ returned [] (
            wrapf invalid_request (some cause) "policy rule %q has an unparseable network %q"
              (text id ∷ text c ∷ []))
        | ok prefix ↦ rest >>= λ prefixes. ok (prefix ∷ prefixes)
      ]

  abbrev is_unset : Effect → Bool
  is_unset effect_unset = true
  is_unset _ = false

  -- decodeRule
  unfoldable pub decode_rule : PolicyRule → Result Rule
  decode_rule r =
      if is_unset (decode_effect r.effect)
      then err (newf invalid_request "policy rule %q has no effect" (text r.id ∷ []))
      else decode_nets r.id r.source_cidrs >>= λ nets. ok (record {
        id = r.id;
        effect = decode_effect r.effect;
        models = r.models;
        endpoints = r.endpoints;
        roles = r.roles;
        regions = r.regions;
        source_nets = nets;
        max_payload_bytes = r.max_payload_bytes;
        data_class = r.data_class;
        min_trust_tier = decode_tier r.min_trust_tier;
        deep_inspection = r.deep_inspection;
        reason = r.reason;
      })

  -- The loop of Decode over the rules.
  unfoldable pub decode_rules : List PolicyRule → Result (List Rule)
  decode_rules [] = ok []
  decode_rules (r ∷ rs) = decode_rule r >>= λ rule. decode_rules rs >>= λ rules. ok (rule ∷ rules)

  -- The zero Bundle.
  abbrev pub zero_bundle : Bundle
  zero_bundle = record { id = ""; version = 0; rules = []; default_effect = effect_unset }

  module _ (unmarshal : List ℕ → Result PolicyBundle) where
    decode_message : Result PolicyBundle → Result Bundle
    decode_message (err cause) =
        returned zero_bundle (wrap invalid_request (some cause) "parsing the policy bundle")
    decode_message (ok msg) = decode_rules msg.rules >>= λ rules. ok (record {
      id = msg.id;
      version = msg.version;
      rules = rules;
      default_effect = decode_effect msg.default_effect;
    })

    -- Decode
    unfoldable pub decode : List ℕ → Result Bundle
    unfolding decode_message
    decode raw = if is_empty raw then ok zero_bundle else decode_message (unmarshal raw)

    pub record Cache : Type 0 where
      pub digest : String
      pub bundles : Map String Bundle

    -- NewCache
    abbrev pub new_cache : Cache
    new_cache = record { digest = ""; bundles = [] }

    -- The first critical section of Cache.For, under the read lock.
    unfoldable pub probe : Cache → String → String → Option Bundle
    probe c tenant digest = if c.digest == digest then lookup tenant c.bundles else none

    -- The second, under the write lock.
    unfoldable pub keep : Cache → String → String → Bundle → Cache
    keep c tenant digest bundle =
        if not (c.digest == digest)
        then record { digest = digest; bundles = insert tenant bundle [] }
        else record c { bundles = insert tenant bundle c.bundles }

    -- What Cache.For does with the cached bundle, if there is one, and else with the decoded one.
    unfoldable pub answer :
        Cache → Cache → String → String → Option Bundle → Result Bundle → Cache × Result Bundle
    answer c later tenant digest (some bundle) decoded = (c, ok bundle)
    answer c later tenant digest none (err e) = (later, err e)
    answer c later tenant digest none (ok bundle) = (keep later tenant digest bundle, ok bundle)

    -- Cache.For, where `later` is what other calls made of the cache while this one decoded.
    unfoldable pub get_bundle :
        Cache → (Cache → Cache) → String → String → List ℕ → Cache × Result Bundle
    get_bundle c later tenant digest raw =
        answer c (later c) tenant digest (probe c tenant digest) (decode raw)
