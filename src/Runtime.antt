-- ===== src/Runtime.antt =====
-- crates/inference-runtime: the actors of a cluster above the engines.
pub mod Placement
pub mod Coordinator
pub mod Streams
pub mod EngineCore
pub mod Manager
pub mod Request
pub mod Metrics
pub mod RealtimeEngine
pub mod AudioEngine
pub mod Worker
