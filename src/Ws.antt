-- ===== src/Ws.antt =====
-- crates/inference-runtime-ws-core: the transport of the realtime runtimes.
pub mod Frame
pub mod Keepalive
pub mod Reconnect
