-- ===== src/Gateway/Sending.antt =====
-- dataplane/internal/gateway/pipeline.go: which bodies are sent, and where.
use model_gateway.Common.{String_comparable, ◌≡◌, true, List, ◌++◌, All}
use model_gateway.Core.Identity.{Principal}
use model_gateway.Core.Snapshot.{Snapshot}
use model_gateway.Core.Trust.{at_least}
use model_gateway.Gateway.{Request, Event, sent, Services}
use model_gateway.Gateway.Masking.{Prepared}
use model_gateway.Gateway.Stages.{wanted}
use model_gateway.Policy.{Netip}
use model_gateway.Router.Floats.{Floats}

module _ {W : Type 0} {net : Netip} (s : Services net W) where
  -- An event that sends nothing, or a prepared body to a deployment that is trusted enough.
  abbrev pub Proper : Snapshot → Principal → Request net → Event → Type 0
  Proper snap p req (sent d body) =
      (at_least d.trust_tier (wanted s snap p req).min_trust_tier ≡ true) × Prepared s p req d body
  Proper snap p req _ = Unit

  -- A log that goes on from another with such events only.
  pub record Extends (snap : Snapshot) (p : Principal) (req : Request net) (before log : List Event)
      : Type 0 where
    pub more : List Event
    pub goes_on : log ≡ before ++ more
    pub proper : All (Proper snap p req) more
