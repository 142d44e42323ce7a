-- ===== src/Remote.antt =====
-- crates/inference-remote-core/src: what every deployment behind a remote provider shares.
pub mod CircuitBreaker
pub mod RateLimit
pub mod Backoff
pub mod Retry
pub mod Worker
pub mod Queue
pub mod Engine
pub mod Classify
pub mod Session
