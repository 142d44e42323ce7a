-- ===== src/Lib.antt =====
-- Verification of the core of this repository: the actors that carry a request from a deployment to
-- an engine, and the machinery around a remote provider.
--
-- A deployment is declared (Core.Deployment, for crates/inference-core/src/deployment.rs), kept in
-- the catalogue (Runtime.Manager, for crates/inference-runtime/src/deployment_manager.rs) and
-- placed on nodes (Runtime.Placement, placement.rs); requests for it are routed to the engine with
-- the least load (Runtime.Coordinator, dp_coordinator.rs) by the actor of the request
-- (Runtime.Request, request.rs), which accumulates the answer (Core.Tokens, tokens.rs). A local
-- engine admits them (Runtime.EngineCore, engine_core.rs), and its tasks (Runtime.EngineCore.Task)
-- pump their streams (Runtime.Streams) to the requests; a remote one queues them by priority and
-- hands them to idle workers (Remote.Engine and Remote.Queue, for engine.rs and queue.rs of
-- crates/inference-remote-core/src). A worker (Remote.Worker, worker.rs) runs a request under a
-- circuit breaker (Remote.CircuitBreaker, circuit_breaker.rs) with retries (Remote.Retry,
-- Remote.Backoff: retry.rs, backoff.rs); Remote.RateLimit is the limiter of rate_limit.rs, and
-- Remote.Session holds the client and the credential of a deployment, session.rs. The modules below
-- Ws are the transport of the realtime runtimes, crates/inference-runtime-ws-core/src: frame.rs,
-- keepalive.rs, reconnect.rs. Runtime.Metrics has the counters of metrics.rs, and
-- Runtime.RealtimeEngine is the engine of live sessions, realtime_engine.rs, Runtime.AudioEngine
-- that of transcription and Audio2Face, audio_engine.rs, Runtime.Worker the parent of a local
-- model's context, and Runtime.Worker.Context that context, worker.rs, all of
-- crates/inference-runtime/src. Remote.Classify is the table of HTTP statuses of
-- crates/inference-remote-core/src/classify.rs. Core.Runtime, Core.Error and Core.Registry are the
-- files of the same names of crates/inference-core/src; Core.Audio and Core.Batch have parts of its
-- audio.rs and batch.rs, with the chunks of transcriptions and of speech in Core.Audio.Chunks and
-- the module base64_compat in Core.Audio.Base64.
--
-- The modules below Providers are the runtimes of remote providers. Those of OpenAI, Anthropic and
-- Gemini (Providers.OpenAi, Providers.Anthropic, Providers.Gemini) convert a batch into a request
-- and the answer, streamed or whole, into chunks: wire.rs and runner.rs of
-- crates/inference-runtime-openai/src, crates/inference-runtime-anthropic/src and
-- crates/inference-runtime-gemini/src. Providers.Chat has what they share, with decode_sse_stream
-- of crates/inference-remote-core/src/sse.rs, and Providers.Errors the error.rs of all three, which
-- read the header Retry-After by Remote.Classify.RetryAfter. Deepgram and AssemblyAI check a
-- request for a transcription, name its model or its query, and read the envelopes that come back:
-- runner.rs and wire.rs of crates/inference-runtime-deepgram/src and
-- crates/inference-runtime-assemblyai/src. The tasks that both have are Providers.Uplink, which
-- sends the audio, and Providers.Transcription, which collects the chunks that come back.
-- ElevenLabs streams the audio of a response, or that of a socket: runner.rs and wire.rs of
-- crates/inference-runtime-elevenlabs/src. Providers.Chunking is the loop that cuts bytes into
-- pieces of a bounded size.
--
-- The modules below Local are runtimes that run a model in the process. Local.Generation is the
-- loop that generates tokens and streams their text, and Local.Sampling the choice of each token:
-- generate.rs and sampling.rs of crates/inference-runtime-ort/src. Local.Whisper turns a payload
-- into samples: audio_decode.rs and error.rs of crates/inference-runtime-whisper-local/src.
-- Local.Phonemes is the lookup of phoneme.rs of crates/inference-runtime-piper/src. Local.Vllm
-- decides whether the default model can be served, and registers its deployment: defaults.rs,
-- probe.rs and hf_cache.rs of crates/inference-runtime-vllm/src. Local.Run is what code that
-- indexes slices ends with: a result, a panic, or fuel run out.
--
-- How code and definitions correspond: a struct is a record, an enum a data type with the source's
-- constructors, a method a function of the source's name from the state (and the instants at which
-- it reads a clock) to the new state and the answer. An actor's handler is `handle`, which takes
-- one message; interleavings are lists of messages or events. Messages that are sent are part of
-- the answer or of the state. Instants and durations are numbers of nanoseconds; unsigned integers
-- are natural numbers, with the wrap of additions written out (`u32`, `u64` of Core.Duration);
-- `usize` sizes of collections are not bounded. Atomic operations and locks are taken in sequence.
--
-- Parameters: the runner of a model (ModelRunner), the CRDT counter (GCounter), 64-bit floats
-- (Float, with laws and an instance on fixed-point numbers), JSON bodies, engine references with
-- their paths and loads (Engines), 32-bit floats (Float32, Floats), the drawing of random tokens
-- with the library's sorting (Randomness), the session and the tokenizer of a model (Backend), the
-- reading of files, the building of HTTP clients, the provider of credentials, the rebuilding of a
-- local model's runner, the values and the parsing of JSON by serde (Values), the decoder of
-- server-sent events, Unicode's lower case and the dates of HTTP (Reading), the base64 crate, the
-- capacities at which tokio's channel panics, and what a machine answers to the probes of vLLM (its
-- environment, its files, and the output of the programs that are asked).
--
-- Fuel: the worker's retry loop has a round of fuel per attempt that the policy allows, and the
-- dispatch loop of the engine one per queued request, since each of its rounds takes a request out.
-- The walk over the chunks of a WAV file has as many rounds as there are bytes, since a chunk takes
-- eight at least, and the loop that cuts bytes into pieces one more than there are bytes, since a
-- piece takes one at least; the generation has as many as tokens are asked for, and one if none
-- are. `none` stands for fuel run out in the worker, and for a panic in Runtime.Placement;
-- Runtime.RealtimeEngine records a panic of its handler in its state, and handles no requests
-- behind it.
--
-- Not modelled: sockets, HTTP, serialisation and logging; the other provider runtimes, and the
-- loading of local models, which calls their libraries; the gateway and the speech engine;
-- conversions of frames to the WebSocket library's type.
pub mod Base
pub mod Core
pub mod Remote
pub mod Runtime
pub mod Ws
pub mod Local
pub mod Providers
