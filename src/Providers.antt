-- ===== src/Providers.antt =====
-- The runtimes that call a provider: crates/inference-runtime-openai, -anthropic, -gemini, -deepgram,
-- -assemblyai and -elevenlabs.
pub mod Chat
pub mod Errors
pub mod OpenAi
pub mod Anthropic
pub mod Gemini
pub mod Chunking
pub mod Uplink
pub mod Transcription
pub mod Deepgram
pub mod AssemblyAi
pub mod ElevenLabs
