-- ===== src/Limits.antt =====
-- dataplane/internal/limits: rate limits at admission. `Bucket` is bucket.go and `Limiter` limiter.go.
pub mod Bucket
pub mod Lease
pub mod Limiter
