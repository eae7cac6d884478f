-- ===== src/Core/Catalog.antt =====
-- dataplane/internal/core/catalog.go and the token counts of ports.go: prices and deployments.
use model_gateway.Common.{
  ℕ, String, ◌≡◌, ◌↔◌, Bool, true, ◌&&◌, not, List, arith, ltb, if◌then◌else◌, Comparable, ◌==◌,
  String_comparable, contains, eqb, all,
}
use model_gateway.Common.Int.{ℤ, ◌+ℤ◌, ◌*ℤ◌, wrap64, quot, pos_part, neg_part}

pub record RoutingKey : Type 0 where
  pub base_model : String
  pub adapter_id : String

-- Go's `==` on the struct.
abbrev pub same_key : RoutingKey → RoutingKey → Bool
same_key a b = a.base_model == b.base_model && a.adapter_id == b.adapter_id

pub same_key_iff : (a b : RoutingKey) → (same_key a b ≡ true) ↔ (a ≡ b)
same_key_iff a b = (
  λ h. ground (
    arith,
    String_comparable.same_iff a.base_model b.base_model,
    String_comparable.same_iff a.adapter_id b.adapter_id,
  ),
  λ e. ground (
    arith,
    String_comparable.same_iff a.base_model b.base_model,
    String_comparable.same_iff a.adapter_id b.adapter_id,
  ),
)

instance abbrev pub RoutingKey_comparable : Comparable RoutingKey
RoutingKey_comparable = record { same = same_key; same_iff = same_key_iff }

-- RoutingKey.IsAdapter
unfoldable pub is_adapter : RoutingKey → Bool
is_adapter k = not (k.adapter_id == "")

pub record TokenUsage : Type 0 where
  pub input : ℤ
  pub cached_input : ℤ
  pub cache_write : ℤ
  pub output : ℤ

-- TokenUsage.Total
unfoldable pub total : TokenUsage → ℤ
total u = wrap64 (wrap64 (wrap64 (u.input +ℤ u.cached_input) +ℤ u.cache_write) +ℤ u.output)

pub record Cost : Type 0 where
  pub input_per_1k : ℤ
  pub output_per_1k : ℤ
  pub cached_input_per_1k : ℤ
  pub cache_write_per_1k : ℤ

abbrev pub is_zero : ℤ → Bool
is_zero a = eqb (pos_part a) (neg_part a)

-- Cost.For
unfoldable pub cost_for : Cost → TokenUsage → ℤ
cost_for c u =
    let cached = if is_zero c.cached_input_per_1k then c.input_per_1k else c.cached_input_per_1k in
    let write = if is_zero c.cache_write_per_1k then c.input_per_1k else c.cache_write_per_1k in
    let plain = wrap64 (u.input *ℤ c.input_per_1k) in
    let with_cached = wrap64 (plain +ℤ wrap64 (u.cached_input *ℤ cached)) in
    let with_write = wrap64 (with_cached +ℤ wrap64 (u.cache_write *ℤ write)) in
    quot (wrap64 (with_write +ℤ wrap64 (u.output *ℤ c.output_per_1k))) 1000

pub record Deployment : Type 0 where
  pub id : String
  pub key : RoutingKey
  pub provider : String
  pub endpoint : String
  pub region : String
  pub trust_tier : ℕ
  pub credential_ref : String
  pub weight : ℕ  -- uint32
  pub shadow_percent : ℕ  -- uint32
  pub cost : Cost
  pub capabilities : List String

-- Deployment.Supports
unfoldable pub supports : Deployment → List String → Bool
supports d required = all (contains d.capabilities) required

-- Deployment.Serving
unfoldable pub serving : Deployment → Bool
serving d = ltb 0 d.weight

-- Deployment.Shadowing
unfoldable pub shadowing : Deployment → Bool
unfolding is_adapter
shadowing d = ltb 0 d.shadow_percent && is_adapter d.key

pub record ModelAlias : Type 0 where
  pub name : String
  pub targets : List RoutingKey
