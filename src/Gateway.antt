-- ===== src/Gateway.antt =====
-- dataplane/internal/gateway/pipeline.go: a request, what the pipeline calls, and what it has done.
-- The services are parameters, which answer and change a world of their own. Each call that the
-- theorems speak of is an `Event` of the log, in order. Times are left out of the records.
pub mod Stages
pub mod Protect
pub mod Reporting
pub mod Handling
pub mod Streaming
pub mod Shadowing
pub mod Ledger
pub mod Accounting
pub mod Streams
pub mod Masking
pub mod Sending
pub mod Staleness
pub mod Floors
pub mod Shadows
mod Tests
use model_gateway.Common.{ℕ, String, Bool, List, [], ◌∷◌, ◌++◌, Option, none, some, Map}
use model_gateway.Common.Int.{ℤ}
use model_gateway.Core.Errors.{Error, Code, Result}
use model_gateway.Core.Catalog.{RoutingKey, Deployment, TokenUsage}
use model_gateway.Core.Guardrail.{GuardrailBinding, GuardrailInput}
use model_gateway.Core.Identity.{Principal}
use model_gateway.Guardrails.{Outcome}
use model_gateway.Limits.Limiter.{Decision}
use model_gateway.Pii.{Bytes, Match, Patterns}
use model_gateway.Policy.{Netip, Bundle}
use model_gateway.Router.Execution.{Turn, Maps}
use model_gateway.Router.Selection.{Router, Providers}

pub record RequestMeta (net : Netip) : Type 0 where
  pub request_id : String
  pub model : String
  pub endpoint : String
  pub payload_bytes : ℤ
  pub source_ip : net.Addr
  pub deadline : ℕ

pub record Request (net : Netip) : Type 0 where
  pub meta : RequestMeta net
  pub api_key : Bytes
  pub body : Bytes
  pub deep_inspection : Bool

-- A stage that ran, with the code of its failure or `unset`.
pub record StageTiming : Type 0 where
  pub name : String
  pub outcome : Code

pub record UsageEvent : Type 0 where
  pub request_id : String
  pub tenant : String
  pub key_id : String
  pub tier : String
  pub deployment : String
  pub route : RoutingKey
  pub provider : String
  pub stream : Bool
  pub shadow : Option String  -- the deployment that a shadow's id is derived from
  pub usage : TokenUsage
  pub cost : ℤ
  pub price : ℤ
  pub outcome : Code
  pub stages : List StageTiming
  pub snapshot_version : ℕ
  pub budgets : List String

pub data Reason : Type 0 where
  unexplained : Reason
  redacted : ℕ → Reason
  classified : String → Reason

pub record AuditEvent : Type 0 where
  pub request_id : String
  pub tenant : String
  pub actor : String
  pub action : String
  pub resource : String
  pub outcome : Code
  pub reason : Reason
  pub snapshot_version : ℕ

-- The limiter allowed a principal, was told of its end, and of its tokens; a provider was sent a body;
-- the vault was given values and told to forget them; telemetry was given a record; a mirror was given
-- a served request.
pub data Event : Type 0 where
  admitted : Principal → Event
  released : Principal → Event
  counted : Principal → ℤ → Event
  sent : Deployment → Bytes → Event
  stored : Map Bytes Bytes → Event
  forgot : Map Bytes Bytes → Event
  used : UsageEvent → Event
  audited : AuditEvent → Event
  mirrored : Deployment → Bytes → Event

-- What a pipeline changes: the world of its services, its router, and the log.
pub record Gate (F W : Type 0) : Type 0 where
  pub world : W
  pub router : Router F
  pub log : List Event

-- A provider's completed answer.
pub record ProviderResponse : Type 0 where
  pub status_code : ℕ
  pub body : Bytes
  pub usage : TokenUsage

-- What Invoke returns: a response, with which there may be an error, or an error alone.
pub data Answered : Type 0 where
  responded : ProviderResponse → Option Error → Answered
  failed : Error → Answered

-- put, forget, by tenant and request.
pub record Vault (W : Type 0) : Type 0 where
  pub put : W → String → String → Map Bytes Bytes → W × Option Error
  pub forget : W → String → String → Map Bytes Bytes → W

-- A Pipeline's fields but the router. `key_lookup` is ComputeKeyLookup under the pepper, and `deep`
-- the NER detector.
pub record Services (net : Netip) (W : Type 0) : Type 0 where
  pub region : String
  pub key_lookup : Bytes → Bytes
  pub policy_for : W → String → String → Bytes → W × Result (Bundle net)
  pub admit : W → Principal → W × Decision
  pub release : W → Principal → W
  pub record_tokens : W → Principal → ℤ → W
  pub inspect : W → List GuardrailBinding → GuardrailInput → W × Result Outcome
  pub providers : Providers
  pub resolve : W → String → W × Result String
  pub invoke : W → Deployment → RequestMeta net → Bytes → String → W × Answered
  pub patterns : Patterns
  pub hashed : Match → Bytes
  pub placeholders : Bytes → List (ℕ × ℕ)
  pub deep : Option (W → Bytes → W × Result (List Match))
  pub vault : Option (Vault W)
  pub mirrors : Bool

-- What one request reads: the clock at authentication and in selection, the random draw, what each
-- attempt reads, and what other requests do to the router's maps meanwhile.
pub record Readings (F : Type 0) : Type 0 where
  pub now : ℕ
  pub clock : ℕ → ℕ
  pub draw : F
  pub turns : ℕ → Turn
  pub meanwhile : ℕ → Maps F → Maps F

-- The log with one more event.
abbrev pub noted : {F W : Type 0} → Gate F W → W → Event → Gate F W
noted g w e = record g { world = w; log = g.log ++ e ∷ [] }
