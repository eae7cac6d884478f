-- ===== src/Core/Guardrail.antt =====
-- dataplane/internal/core/ports.go: the vocabulary of guardrails.
use model_gateway.Common.{
  ℕ, String, Bool, true, false, List, [], ◌∷◌, Option, Comparable, ◌↔◌, ◌≡◌, refl, contains,
}

pub data Phase : Type 0 where
  phase_request phase_response : Phase

abbrev pub same_phase : Phase → Phase → Bool
same_phase phase_request phase_request = true
same_phase phase_response phase_response = true
same_phase _ _ = false

pub same_phase_iff : (a b : Phase) → (same_phase a b ≡ true) ↔ (a ≡ b)
same_phase_iff phase_request phase_request = (λ _. refl, λ _. refl)
same_phase_iff phase_request phase_response = (λ e. cc, λ e. cc)
same_phase_iff phase_response phase_request = (λ e. cc, λ e. cc)
same_phase_iff phase_response phase_response = (λ _. refl, λ _. refl)

instance abbrev pub Phase_comparable : Comparable Phase
Phase_comparable = record { same = same_phase; same_iff = same_phase_iff }

pub data Verdict : Type 0 where
  verdict_allow verdict_deny verdict_mutate : Verdict

pub data FailureMode : Type 0 where
  fail_open fail_closed : FailureMode

-- A payload is its bytes.
abbrev pub Payload : Type 0
Payload = List ℕ

-- The request's metadata is carried by its id, which is all that inspections here use of it.
pub record GuardrailInput : Type 0 where
  pub phase : Phase
  pub request_id : String
  pub class : String
  pub tier : ℕ
  pub payload : Payload

-- A nil payload is `none`.
pub record GuardrailResult : Type 0 where
  pub verdict : Verdict
  pub reason : String
  pub payload : Option Payload

pub record GuardrailBudget : Type 0 where
  pub timeout : ℕ
  pub mode : FailureMode
  pub blocking : Bool
  pub phases : List Phase

pub record GuardrailBinding : Type 0 where
  pub component : String
  pub version : String
  pub config_ref : String
  pub execution : String
  pub wasm_module : String
  pub budget : GuardrailBudget

inspects_in : List Phase → Phase → Bool
inspects_in [] phase = same_phase phase phase_request
inspects_in (p ∷ ps) phase = contains (p ∷ ps) phase

-- GuardrailBinding.Inspects
unfoldable pub inspects : GuardrailBinding → Phase → Bool
unfolding inspects_in
inspects b phase = inspects_in b.budget.phases phase
