-- ===== src/Router.antt =====
-- dataplane/internal/router: the selection of deployments and the attempts on them.
pub mod Breaker
pub mod Floats
pub mod Health
pub mod Selection
pub mod Execution
pub mod Prober
