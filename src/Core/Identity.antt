-- ===== src/Core/Identity.antt =====
-- dataplane/internal/core/identity.go: API keys, allowlists, limits and principals.
-- A presented key is its bytes. Instants count nanoseconds, and 0 is the zero `time.Time`.
use model_gateway.Common.{
  ℕ, String, Bool, true, false, ◌&&◌, ◌||◌, not, List, [], ◌∷◌, Option, none, some, ltb, eqb,
  if◌then◌else◌, String_comparable, contains,
}
use model_gateway.Core.Errors.{unauthenticated, Result, ok, err, new}
use model_gateway.Core.Budget.{BudgetRef}

abbrev pub underscore : ℕ
underscore = b'_'

-- The scheme, "gw_".
abbrev pub scheme : List ℕ
scheme = b'g' ∷ b'w' ∷ b'_' ∷ []

-- strings.CutPrefix: the rest after a prefix, if the text has it.
unfoldable pub after_prefix : List ℕ → List ℕ → Option (List ℕ)
after_prefix [] s = some s
after_prefix (p ∷ ps) [] = none
after_prefix (p ∷ ps) (c ∷ s) = if eqb p c then after_prefix ps s else none

-- strings.Cut at a one-byte separator.
unfoldable pub cut : ℕ → List ℕ → Option (List ℕ × List ℕ)
cut sep [] = none
cut sep (c ∷ s) =
    if eqb c sep
    then some ([], s)
    else elim (cut sep s) [ none ↦ none | some (before, after) ↦ some (c ∷ before, after) ]

abbrev pub is_empty {ℓ} : {A : Type ℓ} → List A → Bool
is_empty [] = true
is_empty (_ ∷ _) = false

split_key : Option (List ℕ × List ℕ) → Result (List ℕ × List ℕ)
split_key none = err (new unauthenticated "api key is malformed")
split_key (some (prefix, secret)) =
    if is_empty prefix || is_empty secret
    then err (new unauthenticated "api key is malformed")
    else ok (prefix, secret)

parse_rest : Option (List ℕ) → Result (List ℕ × List ℕ)
unfolding split_key
parse_rest none = err (new unauthenticated "api key has an unrecognised scheme")
parse_rest (some rest) = split_key (cut underscore rest)

-- ParseAPIKey
unfoldable pub parse_api_key : List ℕ → Result (List ℕ × List ℕ)
unfolding parse_rest
parse_api_key presented = parse_rest (after_prefix scheme presented)

pub record ModelAllowlist : Type 0 where
  pub allow_all : Bool
  pub names : List String

-- ModelAllowlist.Permits
unfoldable pub permits : ModelAllowlist → String → Bool
permits a name = if a.allow_all then true else contains a.names name

-- Zero means unlimited in that dimension; each is a uint32.
pub record RateLimit : Type 0 where
  pub requests_per_minute : ℕ
  pub tokens_per_minute : ℕ
  pub max_concurrent : ℕ

-- RateLimit.Unlimited
unfoldable pub unlimited : RateLimit → Bool
unlimited r = eqb r.requests_per_minute 0 && eqb r.tokens_per_minute 0 && eqb r.max_concurrent 0

pub record Principal : Type 0 where
  pub key_id : String
  pub tenant : String
  pub org : String
  pub team : String
  pub user : String
  pub app : String
  pub roles : List String
  pub models : ModelAllowlist
  pub budgets : List BudgetRef
  pub default_class : String
  pub min_trust_tier : ℕ
  pub limits : RateLimit
  pub deprecated : Bool
  pub not_after : ℕ

-- Principal.Validate
unfoldable pub validate : Principal → ℕ → Result (Unit {0})
validate p now =
    if not (eqb p.not_after 0) && ltb p.not_after now
    then err (new unauthenticated "api key has expired")
    else ok tt
