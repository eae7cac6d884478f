-- ===== src/Core.antt =====
-- The domain vocabulary: dataplane/internal/core.
pub mod Errors
pub mod Trust
pub mod Budget
pub mod Catalog
pub mod Identity
pub mod Ports
pub mod Guardrail
pub mod Snapshot
