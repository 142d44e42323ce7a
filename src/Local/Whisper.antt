-- ===== src/Local/Whisper.antt =====
-- crates/inference-runtime-whisper-local/src/error.rs and audio_decode.rs: from a payload to samples.
pub mod Samples
pub mod Wav
pub mod Payload
mod Examples
use rakka_inference.Core.Error.{
  InferenceError, bad_request, internal, unsupported, unsupported_audio_format,
}
use rakka_inference.Core.Runtime.{speech_to_text}
use rakka_inference.Base.{not}
use rakka_inference.Core.Audio.{path}
use Prim.Native.String.{String}
use Prim.Native.String.{◌++◌ as ◌+++◌}

pub data WhisperError : Type 0 where
  model_not_found : (path : String) → WhisperError
  model_io : (path source : String) → WhisperError
  unsupported_audio : (message : String) → WhisperError
  streaming_not_supported : WhisperError
  backend : String → WhisperError
  feature_disabled : WhisperError
  unsupported_arch : (arch : String) → WhisperError

-- The texts of the errors that are passed on as texts.
abbrev pub to_string : WhisperError → String
to_string (model_not_found p) = "whisper: model file not found at " +++ p
to_string (model_io p source) = "whisper: model io error at " +++ p +++ ": " +++ source
to_string (unsupported_audio message) = "whisper: unsupported audio format (" +++ message +++ ")"
to_string streaming_not_supported =
    "whisper: streaming AudioInput not supported by this runtime (use AudioInput::Static)"
to_string (backend text) = "whisper: backend error: " +++ text
to_string feature_disabled =
    "stt-whisper feature disabled at build time — rebuild with --features stt-whisper"
to_string (unsupported_arch arch) = "whisper: unsupported host architecture (" +++ arch +++ ")"

with_arch_hint : InferenceError → String → InferenceError
with_arch_hint (unsupported method runtime) arch =
    unsupported
      (method +++ " (host arch `" +++ arch
        +++ "` is not in the supported set: linux-x86_64, linux-aarch64)")
      runtime
with_arch_hint other arch = other

-- `impl From<WhisperError> for InferenceError`
to_inference_error : WhisperError → InferenceError
unfolding with_arch_hint
to_inference_error (unsupported_audio message) = unsupported_audio_format message
to_inference_error streaming_not_supported = unsupported "execute_audio" speech_to_text
to_inference_error (unsupported_arch arch) =
    with_arch_hint (unsupported "execute_audio" speech_to_text) arch
to_inference_error (backend text) = internal (to_string (backend text))
to_inference_error feature_disabled = internal (to_string feature_disabled)
to_inference_error e = bad_request (to_string e)
