-- ===== src/Core/Audio/Chunks.antt =====
-- crates/inference-core/src/audio.rs: options, and the chunks that a request streams. 32-bit floats are
-- a parameter, and so is what a chunk cost.
use Prim.Native.String.{String}
use rakka_inference.Base.{Bool, List, Option, ℕ}
use rakka_inference.Core.Audio.{AudioParams, AudioPayload}

pub record TranscribeOptions (F : Type 0) : Type 0 where
  pub language : Option String
  pub interim_results : Bool
  pub word_timestamps : Bool
  pub diarize : Bool
  pub prompt : Option String
  pub temperature : Option F

pub record A2fOptions (F : Type 0) : Type 0 where
  pub fps : Option ℕ
  pub emotion : Option String
  pub smoothing_ms : Option ℕ
  pub strength : Option F

pub data AudioOptions (F : Type 0) : Type 0 where
  transcribe : TranscribeOptions F → AudioOptions F
  audio2_face : A2fOptions F → AudioOptions F

pub record WordTiming (F : Type 0) : Type 0 where
  pub text : String
  pub ts_start_ms : ℕ
  pub ts_end_ms : ℕ
  pub confidence : Option F

pub record Viseme (F : Type 0) : Type 0 where
  pub id : ℕ
  pub ts_start_ms : ℕ
  pub ts_end_ms : ℕ
  pub weight : F

pub record AlignmentDelta (F : Type 0) : Type 0 where
  pub words : List (WordTiming F)
  pub visemes : List (Viseme F)

pub record TranscriptChunk (F Cost : Type 0) : Type 0 where
  pub request_id : String
  pub is_final : Bool
  pub text : String
  pub ts_start_ms : ℕ
  pub ts_end_ms : ℕ
  pub speaker_id : Option String
  pub words : List (WordTiming F)
  pub usage : Option Cost

pub record SpeechChunk (F Cost : Type 0) : Type 0 where
  pub request_id : String
  pub is_final : Bool
  pub audio_pcm_chunk : List ℕ
  pub params : AudioParams
  pub alignment : Option (AlignmentDelta F)
  pub usage : Option Cost

pub data VoiceRef : Type 0 where
  named id : String → VoiceRef
  cloned_from : AudioPayload → VoiceRef
