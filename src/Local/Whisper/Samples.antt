-- ===== src/Local/Whisper/Samples.antt =====
-- crates/inference-runtime-whisper-local/src/audio_decode.rs: from bytes to samples.
pub mod Encoding
use rakka_inference.Base.Text.{decimal}
use rakka_inference.Local.Whisper.{WhisperError, unsupported_audio}
use rakka_inference.Base.Integers.{negsuc, pos, ℤ}
use rakka_inference.Base.{
  List, Result, [], err, if◌then◌else◌, length, ltb, ok, ℕ, ◌%◌, ◌*◌, ◌+◌, ◌-◌, ◌==◌, ◌^◌, ◌∷◌,
}
use Prim.Native.String.{◌++◌ as ◌+++◌}

-- The floats of 32 bits, as far as decoding uses them: `as f32`, `/` and `f32::from_le_bytes`.
pub record Float32 : Type 1 where
  pub F : Type 0
  pub of_ℤ : ℤ → F
  pub div : F → F → F
  pub from_bits : ℕ → F

-- A 16-bit pattern as a signed number.
unfoldable pub i16 : ℕ → ℤ
i16 w = if ltb w (2 ^ 15) then pos w else negsuc (2 ^ 16 - w - 1)

module _ (fl : Float32) where
  open fl use {F, of_ℤ, div, from_bits}

  unfoldable pub sample16 : ℕ → F
  sample16 w = div (of_ℤ (i16 w)) (of_ℤ (pos 32_767))

  -- `chunks_exact`
  unfoldable pub samples16 : List ℕ → List F
  samples16 [] = []
  samples16 (a ∷ []) = []
  samples16 (a ∷ b ∷ rest) = sample16 (a + 256 * b) ∷ samples16 rest

  samples32 : List ℕ → List F
  samples32 (a ∷ b ∷ c ∷ d ∷ rest) =
      from_bits (a + 256 * b + 65_536 * c + 16_777_216 * d) ∷ samples32 rest
  samples32 _ = []

  unfoldable pub decode_pcm16 : List ℕ → Result (List F) WhisperError
  decode_pcm16 bytes =
      if length bytes % 2 == 0
      then ok (samples16 bytes)
      else err (
          unsupported_audio (
            "Pcm16Le payload byte length "
            +++ decimal (length bytes)
            +++ " is not a multiple of 2"))

  pub decode_pcm_f32 : List ℕ → Result (List F) WhisperError
  decode_pcm_f32 bytes =
      if length bytes % 4 == 0
      then ok (samples32 bytes)
      else err (
          unsupported_audio (
            "PcmF32Le payload byte length "
            +++ decimal (length bytes)
            +++ " is not a multiple of 4"))
