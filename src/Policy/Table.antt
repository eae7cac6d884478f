-- ===== src/Policy/Table.antt =====
-- The decision table: the first rule that matches decides.
use model_gateway.Common.{
  String, ◌≡◌, refl, subst, ◌↔◌, inl, inr, true, false, List, [], ◌∷◌, ◌++◌, filter, All, arith,
  Bool-cases,
}
use model_gateway.Core.Identity.{is_empty}
use model_gateway.Policy.{
  Netip, Effect, effect_deny, effect_allow, effect_unset, is_deny, Rule, Bundle, Input, matches,
  in_any_net, decides, by_default, scan, evaluate,
}

module _ (net : Netip) where
  -- No rule of a list matches.
  abbrev pub NoneMatch : Input net → List (Rule net) → Type 0
  NoneMatch i rs = All (λ r. matches net r i ≡ false) rs

  -- Rules that do not match, wherever they stand before the one that does, and all rules after it,
  -- have no effect on the decision.
  pub scan-first :
      (before after : List (Rule net)) (r : Rule net) (e : Effect) (i : Input net)
      → NoneMatch i before
      → matches net r i ≡ true
      → scan net (before ++ r ∷ after) e i ≡ decides net r
  unfolding scan
  scan-first [] after r e i h m = ground (arith, m)
  scan-first (x ∷ before) after r e i h m = ground (arith, h.0, scan-first before after r e i h.1 m)

  -- Why a bundle refuses: a deny rule matches and no rule before it does, or no rule matches at all
  -- and the default is to deny.
  pub data Refused (i : Input net) (e : Effect) (id : String) : List (Rule net) → Type 0 where
    by_rule :
        (r : Rule net) (rs : List (Rule net))
        → matches net r i ≡ true
        → r.effect ≡ effect_deny
        → r.id ≡ id
        → Refused i e id (r ∷ rs)
    by_no_rule : e ≡ effect_deny → id ≡ "" → Refused i e id []
    passed_over :
        (r : Rule net) (rs : List (Rule net))
        → matches net r i ≡ false
        → Refused i e id rs
        → Refused i e id (r ∷ rs)

  is_deny-effect : (e : Effect) → is_deny e ≡ true → e ≡ effect_deny
  is_deny-effect effect_unset h = cc
  is_deny-effect effect_allow h = cc
  is_deny-effect effect_deny h = refl

  scan-Refused :
      (rs : List (Rule net)) (e : Effect) (i : Input net)
      → (scan net rs e i).allowed ≡ false
      → Refused i e (scan net rs e i).rule_id rs
  unfolding scan decides by_default
  scan-Refused [] e i h = by_no_rule (is_deny-effect e (ground arith)) refl
  scan-Refused (r ∷ rs) e i h = elim (Bool-cases (matches net r i)) [
    | inl m ↦ by_rule r rs m (is_deny-effect r.effect (ground (arith, m))) (ground (arith, m, h))
    | inr m ↦ rw m (passed_over r rs m (scan-Refused rs e i (ground (arith, m, h))))
  ]

  Refused-scan :
      (rs : List (Rule net)) (e : Effect) (i : Input net) (id : String)
      → Refused i e id rs
      → ((scan net rs e i).allowed ≡ false) × ((scan net rs e i).rule_id ≡ id)
  unfolding scan decides by_default
  Refused-scan [] e i id (by_no_rule d n) = ground arith
  Refused-scan (r ∷ rs) e i id (by_rule _ _ m d n) = ground arith
  Refused-scan (r ∷ rs) e i id (passed_over _ _ m h) = ground (arith, Refused-scan rs e i id h)

  -- A bundle refuses a request, naming a rule, exactly when a deny rule of that id matches and no
  -- rule before it matches, or no rule matches, the default is to deny, and the name is empty.
  pub evaluate_refuses :
      (b : Bundle net) (i : Input net) (id : String)
      → (((evaluate net b i).allowed ≡ false) × ((evaluate net b i).rule_id ≡ id))
        ↔ Refused i b.default_effect id b.rules
  evaluate_refuses b i id = (
    λ h.
        subst (λ n. Refused i b.default_effect n b.rules) h.1
          (scan-Refused b.rules b.default_effect i h.0),
    λ h. Refused-scan b.rules b.default_effect i id h,
  )

  matches-unplaced :
      (r : Rule net) (i : Input net)
      → net.is_valid i.source ≡ false
      → is_empty r.source_nets ≡ false
      → matches net r i ≡ false
  unfolding matches in_any_net
  matches-unplaced r i v n = ground arith

  -- A request whose address is unknown is decided as though the rules that name networks, those
  -- that deny included, were not in the bundle.
  pub scan-unplaced :
      (rs : List (Rule net)) (e : Effect) (i : Input net)
      → net.is_valid i.source ≡ false
      → scan net rs e i ≡ scan net (filter (λ r. is_empty r.source_nets) rs) e i
  unfolding scan
  scan-unplaced [] e i v = refl
  scan-unplaced (r ∷ rs) e i v = ground (arith, matches-unplaced r i v, scan-unplaced rs e i v)
