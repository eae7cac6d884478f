-- ===== src/Core/Trust.antt =====
-- dataplane/internal/core/trust.go: trust tiers (a uint8, in increasing trust) and data classes.
use model_gateway.Common.{ℕ, String, Bool, ◌&&◌, leb}

abbrev pub trust_unset : ℕ
trust_unset = 0

abbrev pub trust_external : ℕ
trust_external = 1

abbrev pub trust_private_cloud : ℕ
trust_private_cloud = 2

abbrev pub trust_internal : ℕ
trust_internal = 3

-- TrustTier.Valid
unfoldable pub valid : ℕ → Bool
valid t = leb trust_external t && leb t trust_internal

-- TrustTier.AtLeast
unfoldable pub at_least : ℕ → ℕ → Bool
at_least t minimum = leb minimum t

abbrev pub class_public : String
class_public = "public"

abbrev pub class_internal : String
class_internal = "internal"

abbrev pub class_confidential : String
class_confidential = "confidential"

abbrev pub class_restricted : String
class_restricted = "restricted"
