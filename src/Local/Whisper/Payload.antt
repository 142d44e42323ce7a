-- ===== src/Local/Whisper/Payload.antt =====
-- crates/inference-runtime-whisper-local/src/audio_decode.rs: `payload_to_f32_pcm`.
pub mod Acceptance
use rakka_inference.Local.Run.{Run, fail, returned, ◌>>=◌}
use rakka_inference.Base.{Bool, List, Result, err, if◌then◌else◌, not, ok, ℕ, ◌==◌}
use rakka_inference.Base.Text.{decimal}
use rakka_inference.Local.Whisper.{WhisperError, unsupported_audio}
use rakka_inference.Local.Whisper.Samples.{Float32, decode_pcm16, decode_pcm_f32}
use rakka_inference.Local.Whisper.Wav.{decode_wav}
use rakka_inference.Core.Audio.{
  AudioFormat, AudioParams, AudioPayload, bytes, debug_format, path, pcm16_le, pcm_f32_le, url, wav,
}
use Prim.Native.String.{String}
use Prim.Native.String.{◌++◌ as ◌+++◌}

-- What `std::fs::read` fails with.
pub record IoError : Type 0 where
  pub is_not_found : Bool
  pub display : String

unfoldable pub check_params : AudioParams → (cfg_sample_rate : ℕ) → Result (Unit {0}) WhisperError
unfolding decimal
check_params params cfg_sample_rate =
    if not (params.sample_rate_hz == cfg_sample_rate)
    then err (
        unsupported_audio (
          "expected "
          +++ decimal cfg_sample_rate
          +++ " Hz, got "
          +++ decimal params.sample_rate_hz
          +++ " Hz (resample upstream — whisper.cpp is hard-coded to 16 kHz)"))
    else if not (params.channels == 1)
    then err (
        unsupported_audio
          ("expected mono, got " +++ decimal params.channels +++ " channels (mix down upstream)"))
    else ok tt

unreadable : String → IoError → WhisperError
unreadable p e = unsupported_audio (
    if e.is_not_found
    then "audio file not found at " +++ p
    else "audio file io error at " +++ p +++ ": " +++ e.display)

pub read_file : (String → Result (List ℕ) IoError) → String → Result (List ℕ) WhisperError
unfolding unreadable
read_file read p = elim (read p) [ ok content ↦ ok content | err e ↦ err (unreadable p e) ]

module _ (fl : Float32) (lossy : List ℕ → String) (read : String → Result (List ℕ) IoError) where
  open fl use {F}

  decode_as : AudioFormat → List ℕ → Run (List F) WhisperError
  decode_as pcm16_le content = returned (decode_pcm16 fl content)
  decode_as pcm_f32_le content = returned (decode_pcm_f32 fl content)
  decode_as wav content = decode_wav fl lossy content
  decode_as other content = fail (
      unsupported_audio (
        "format "
        +++ debug_format other
        +++ " not handled by whisper-local; supply Pcm16Le, PcmF32Le or Wav"))

  unfoldable pub decode_bytes : List ℕ → AudioParams → Run (List F) WhisperError
  unfolding decode_as
  decode_bytes content params = decode_as params.format content

  unfoldable pub payload_to_f32_pcm :
      AudioPayload → (cfg_sample_rate : ℕ) → Run (List F) WhisperError
  payload_to_f32_pcm (bytes content params) rate =
      returned (check_params params rate) >>= λ _. decode_bytes content params
  payload_to_f32_pcm (path p params) rate = returned (check_params params rate) >>= λ _.
      returned (read_file read p) >>= λ content. decode_bytes content params
  payload_to_f32_pcm (url _ _) rate =
      fail (
        unsupported_audio "AudioPayload::Url not implemented for local whisper.cpp; fetch upstream")
