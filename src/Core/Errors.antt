-- ===== src/Core/Errors.antt =====
-- dataplane/internal/core/errors.go: failure codes, the gateway's error type, and its wrap chain.
-- A message keeps its format and arguments apart, since `fmt.Sprintf` is not modelled.
use model_gateway.Common.{
  ◌≡◌, refl, ◌⊎◌, inl, inr, ℕ, String, Bool, true, false, List, [], Option, none, some,
}

-- `unset` is the empty Code, which `CodeOf(nil)` and a zero `Decision` hold.
pub data Code : Type 0 where
  unset unauthenticated forbidden invalid_request model_not_found no_candidates : Code
  trust_tier_denied rate_limited budget_exhausted endpoint_unsupported : Code
  guardrail_denied upstream_error upstream_timeout unavailable internal : Code

pub data Arg : Type 0 where
  text : String → Arg
  number : ℕ → Arg

pub record Message : Type 0 where
  pub format : String
  pub args : List Arg

-- `gateway` is an *Error with no cause and `wrapping` one with a cause. `outside` is an error of
-- another package, and `outside_wrapping` one of those that unwraps to a further error.
pub data Error : Type 0 where
  gateway : Code → Message → Bool → Error
  wrapping : Code → Message → Bool → Error → Error
  outside : String → Error
  outside_wrapping : String → Error → Error

-- New
unfoldable pub new : Code → String → Error
new code message = gateway code (record { format = message; args = [] }) false

-- Newf
unfoldable pub newf : Code → String → List Arg → Error
newf code format args = gateway code (record { format = format; args = args }) false

-- Wrap; a nil cause gives a nil error.
unfoldable pub wrap : Code → Option Error → String → Option Error
wrap code none message = none
wrap code (some cause) message =
    some (wrapping code (record { format = message; args = [] }) false cause)

-- WrapRetryable
unfoldable pub wrap_retryable : Code → Option Error → String → Option Error
wrap_retryable code none message = none
wrap_retryable code (some cause) message =
    some (wrapping code (record { format = message; args = [] }) true cause)

-- Wrapf
unfoldable pub wrapf : Code → Option Error → String → List Arg → Option Error
wrapf code none format args = none
wrapf code (some cause) format args =
    some (wrapping code (record { format = format; args = args }) false cause)

-- AsRetryable, of an *Error; the argument is left as it was.
unfoldable pub as_retryable : Error → Error
as_retryable (gateway code message _) = gateway code message true
as_retryable (wrapping code message _ cause) = wrapping code message true cause
as_retryable other = other

-- What `errors.As` finds: the first *Error along the chain, as its code and retryable flag.
unfoldable pub find_gateway : Error → Option (Code × Bool)
find_gateway (gateway code _ retryable) = some (code, retryable)
find_gateway (wrapping code _ retryable _) = some (code, retryable)
find_gateway (outside _) = none
find_gateway (outside_wrapping _ cause) = find_gateway cause

-- CodeOf
unfoldable pub code_of : Option Error → Code
unfolding find_gateway
code_of none = unset
code_of (some e) = elim (find_gateway e) [ none ↦ internal | some (code, _) ↦ code ]

-- IsRetryable
unfoldable pub is_retryable : Option Error → Bool
unfolding find_gateway
is_retryable none = false
is_retryable (some e) = elim (find_gateway e) [ none ↦ false | some (_, retryable) ↦ retryable ]

-- A function's `(value, error)` results.
pub data Result {ℓ} (V : Type ℓ) : Type ℓ where
  ok : V → Result V
  err : Error → Result V

infixl 5 ◌>>=◌
abbrev pub ◌>>=◌ {ℓ κ} : {V : Type ℓ} {W : Type κ} → Result V → (V → Result W) → Result W
ok value >>= next = next value
err failure >>= next = err failure

-- `return value, e`, for an error that may be nil.
abbrev pub returned {ℓ} : {A : Type ℓ} → A → Option Error → Result A
returned value none = ok value
returned value (some e) = err e

-- To split on a computed result and keep the equation.
pub Result-cases {ℓ} :
    {A : Type ℓ} (r : Result A) → ((e : Error) × (r ≡ err e)) ⊎ ((a : A) × (r ≡ ok a))
Result-cases (ok a) = inr (a, refl)
Result-cases (err e) = inl (e, refl)

-- A chain that succeeds succeeded at its first step.
pub bind-ok {ℓ κ} :
    {V : Type ℓ} {W : Type κ} (first : Result V) (next : V → Result W) (last : W)
    → first >>= next ≡ ok last
    → (value : V) × (first ≡ ok value) × (next value ≡ ok last)
bind-ok (ok value) next last h = (value, refl, h)
bind-ok (err failure) next last h = cc

-- The code of a result's error; `unset` where there is none.
abbrev pub result_code {ℓ} : {A : Type ℓ} → Result A → Code
result_code (ok _) = unset
result_code (err e) = code_of (some e)
