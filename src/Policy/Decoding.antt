-- ===== src/Policy/Decoding.antt =====
-- What a bundle that Decode accepts holds.
use model_gateway.Common.{
  ℕ, String, ◌≡◌, subst, ◌⊎◌, inl, inr, true, false, List, [], ◌∷◌, arith, eqb, Bool-cases, ◌≤◌,
}
use model_gateway.Core.Errors.{Result, ok, ◌>>=◌, bind-ok, Result-cases, wrapf, wrap}
use model_gateway.Core.Identity.{is_empty}
use model_gateway.Policy.{
  Netip, effect_deny, effect_allow, PolicyRule, PolicyBundle, Rule, Bundle, decode_effect,
  decode_tier, decode_nets, decode_rule, decode_rules, decode,
}

module _ (net : Netip) where
  -- The networks are the rule's texts, each parsed, in order.
  pub data Parsed : List String → List net.Prefix → Type 0 where
    parsed_none : Parsed [] []
    parsed_next :
        (c : String) (cs : List String) (p : net.Prefix) (ps : List net.Prefix)
        → net.parse_prefix c ≡ ok p
        → Parsed cs ps
        → Parsed (c ∷ cs) (p ∷ ps)

  decode_nets-Parsed :
      (id : String) (cs : List String) (ps : List net.Prefix)
      → decode_nets net id cs ≡ ok ps
      → Parsed cs ps
  unfolding decode_nets wrapf
  decode_nets-Parsed id [] ps e =
      let same : [] ≡ ps = cc in subst (λ x. Parsed [] x) same parsed_none
  decode_nets-Parsed id (c ∷ cs) ps e = elim (Result-cases (net.parse_prefix c)) [
    | inl (f, q) ↦ ground (arith, q)
    | inr (p, q) ↦
        let chained : (decode_nets net id cs >>= λ l. ok (p ∷ l)) ≡ ok ps = ground (arith, q) in
        let (l, rest, last) = bind-ok (decode_nets net id cs) (λ l. ok (p ∷ l)) ps chained in
        let same : p ∷ l ≡ ps = cc in
        subst (λ x. Parsed (c ∷ cs) x) same
          (parsed_next c cs p l q (decode_nets-Parsed id cs l rest))
  ]

  -- A rule of the message and the rule that it was decoded to.
  pub record Decoded (r : PolicyRule) (rule : Rule net) : Type 0 where
    pub effect :
        (r.effect ≡ 1) × (rule.effect ≡ effect_allow) ⊎ (r.effect ≡ 2) × (rule.effect ≡ effect_deny)
    pub id : rule.id ≡ r.id
    pub models : rule.models ≡ r.models
    pub endpoints : rule.endpoints ≡ r.endpoints
    pub roles : rule.roles ≡ r.roles
    pub regions : rule.regions ≡ r.regions
    pub nets : Parsed r.source_cidrs rule.source_nets
    pub max_payload_bytes : rule.max_payload_bytes ≡ r.max_payload_bytes
    pub tier : rule.min_trust_tier ≤ 3

  decode_tier-le : (t : ℕ) → decode_tier t ≤ 3
  unfolding decode_tier
  decode_tier-le t = ground arith

  decode_rule-Decoded :
      (r : PolicyRule) (rule : Rule net) → decode_rule net r ≡ ok rule → Decoded r rule
  unfolding decode_rule decode_effect
  decode_rule-Decoded r rule e = elim (Result-cases (decode_nets net r.id r.source_cidrs)) [
    | inl (f, q) ↦ ground (arith, q)
    | inr (nets, q) ↦
        let parsed = decode_nets-Parsed r.id r.source_cidrs nets q in
        let same : nets ≡ rule.source_nets = ground (arith, q) in
        record {
          effect = elim (Bool-cases (eqb r.effect 1)) [
            | inl one ↦ inl (ground arith, ground (arith, q, one))
            | inr other ↦ inr (ground (arith, q, other), ground (arith, q, other))
          ];
          id = ground (arith, q);
          models = ground (arith, q);
          endpoints = ground (arith, q);
          roles = ground (arith, q);
          regions = ground (arith, q);
          nets = subst (λ x. Parsed r.source_cidrs x) same parsed;
          max_payload_bytes = ground (arith, q);
          tier = ground (arith, q, decode_tier-le r.min_trust_tier);
        }
  ]

  -- The rules of the message and of the bundle, one for one and in order.
  pub data Each : List PolicyRule → List (Rule net) → Type 0 where
    each_none : Each [] []
    each_next :
        (r : PolicyRule) (rs : List PolicyRule) (rule : Rule net) (rules : List (Rule net))
        → Decoded r rule
        → Each rs rules
        → Each (r ∷ rs) (rule ∷ rules)

  decode_rules-Each :
      (rs : List PolicyRule) (rules : List (Rule net))
      → decode_rules net rs ≡ ok rules
      → Each rs rules
  unfolding decode_rules
  decode_rules-Each [] rules e = let same : [] ≡ rules = cc in subst (λ x. Each [] x) same each_none
  decode_rules-Each (r ∷ rs) rules e =
      let (rule, first, e1) = bind-ok (decode_rule net r) _ rules e in
      let (tail, second, last) = bind-ok (decode_rules net rs) _ rules e1 in
      let same : rule ∷ tail ≡ rules = cc in
      subst (λ x. Each (r ∷ rs) x) same
        (each_next r rs rule tail (decode_rule-Decoded r rule first)
          (decode_rules-Each rs tail second))

  -- A bundle that decodes from bytes that are not empty comes of a message that parses, and keeps
  -- every rule of the message, in order, with its id and its conditions: each rule either allows or
  -- denies, as the message says, each of its networks was parsed, so that none is dropped, and its
  -- trust tier is a known one.
  pub decode-Each :
      (unmarshal : List ℕ → Result PolicyBundle) (raw : List ℕ) (b : Bundle net)
      → decode net unmarshal raw ≡ ok b
      → is_empty raw ≡ false
      → (msg : PolicyBundle) × (unmarshal raw ≡ ok msg) × Each msg.rules b.rules
  unfolding decode wrap
  decode-Each unmarshal raw b e some_bytes = elim (Result-cases (unmarshal raw)) [
    | inl (f, q) ↦ let impossible : true ≡ false = ground (arith, q) in cc
    | inr (msg, q) ↦ elim (Result-cases (decode_rules net msg.rules)) [
      | inl (f, d) ↦ let impossible : true ≡ false = ground (arith, q, d) in cc
      | inr (rules, d) ↦
          let same : rules ≡ b.rules = ground (arith, q, d) in
          (msg, q, subst (λ x. Each msg.rules x) same (decode_rules-Each msg.rules rules d))
    ]
  ]
