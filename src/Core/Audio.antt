-- ===== src/Core/Audio.antt =====
-- crates/inference-core/src/audio.rs: the formats, parameters and payloads of audio. Bytes are
-- numbers.
pub mod Base64
pub mod Chunks
use Prim.Native.String.{String}
use rakka_inference.Base.{Bool, List, false, leb, not, true, ℕ, ◌&&◌}

pub data AudioFormat : Type 0 where
  pcm16_le pcm24_le pcm_f32_le ogg_opus mp3 flac wav : AudioFormat

pub is_pcm : AudioFormat → Bool
is_pcm pcm16_le = true
is_pcm pcm24_le = true
is_pcm pcm_f32_le = true
is_pcm _ = false

is_wav : AudioFormat → Bool
is_wav wav = true
is_wav _ = false

-- `self != Self::Wav` is the derived inequality.
requires_decode : AudioFormat → Bool
unfolding is_pcm is_wav
requires_decode f = not (is_pcm f) && not (is_wav f)

-- The derived `Debug`.
abbrev pub debug_format : AudioFormat → String
debug_format pcm16_le = "Pcm16Le"
debug_format pcm24_le = "Pcm24Le"
debug_format pcm_f32_le = "PcmF32Le"
debug_format ogg_opus = "OggOpus"
debug_format mp3 = "Mp3"
debug_format flac = "Flac"
debug_format wav = "Wav"

pub record AudioParams : Type 0 where
  pub sample_rate_hz : ℕ
  pub channels : ℕ
  pub format : AudioFormat

abbrev pub is_valid : AudioParams → Bool
is_valid p =
    (leb 8_000 p.sample_rate_hz && leb p.sample_rate_hz 96_000)
    && (leb 1 p.channels && leb p.channels 8)

pub data AudioPayload : Type 0 where
  bytes : List ℕ → AudioParams → AudioPayload
  path : String → AudioParams → AudioPayload
  url : String → AudioParams → AudioPayload

unfoldable pub payload_params : AudioPayload → AudioParams
payload_params (bytes _ p) = p
payload_params (path _ p) = p
payload_params (url _ p) = p
