-- ===== src/Core.antt =====
-- crates/inference-core: the data that the engines, the runtimes and the gateway share.
pub mod Duration
pub mod Float
pub mod Runtime
pub mod Error
pub mod Registry
pub mod Deployment
pub mod Tokens
pub mod Audio
pub mod Batch
