-- ===== src/Local.antt =====
-- The runtimes that run a model in the process itself.
pub mod Run
pub mod Whisper
pub mod Sampling
pub mod Generation
pub mod Phonemes
pub mod Vllm
