-- ===== src/Local/Whisper/Wav.antt =====
-- crates/inference-runtime-whisper-local/src/audio_decode.rs: `decode_wav`.
pub mod Totality
pub mod File
mod Walking
pub mod RoundTrip
use rakka_inference.Local.Run.{Run, fail, out_of_fuel, pure, returned, slice, u16_at, u32_at, ◌>>=◌}
use rakka_inference.Base.{
  Bool, List, Option, Result, [], err, false, if◌then◌else◌, leb, length, ltb, none, not, ok, some,
  suc, true, zero, ℕ, ◌%◌, ◌&&◌, ◌+◌, ◌/◌, ◌==◌, ◌^◌, ◌∷◌,
}
use rakka_inference.Base.Text.{decimal}
use rakka_inference.Local.Whisper.{WhisperError, unsupported_audio}
use rakka_inference.Local.Whisper.Samples.{Float32, decode_pcm16, decode_pcm_f32}
use Prim.Native.String.{String}
use Prim.Native.String.{◌++◌ as ◌+++◌}

abbrev pub bytes_eq : List ℕ → List ℕ → Bool
bytes_eq [] [] = true
bytes_eq (a ∷ as') (b ∷ bs) = a == b && bytes_eq as' bs
bytes_eq _ _ = false

abbrev pub riff_id : List ℕ
riff_id = b'R' ∷ b'I' ∷ b'F' ∷ b'F' ∷ []

abbrev pub wave_id : List ℕ
wave_id = b'W' ∷ b'A' ∷ b'V' ∷ b'E' ∷ []

abbrev pub fmt_id : List ℕ
fmt_id = b'f' ∷ b'm' ∷ b't' ∷ b' ' ∷ []

abbrev pub data_id : List ℕ
data_id = b'd' ∷ b'a' ∷ b't' ∷ b'a' ∷ []

-- The local variables of `decode_wav` that its loop assigns.
pub record Chunks : Type 0 where
  pub fmt_tag : Option ℕ
  pub channels : Option ℕ
  pub sample_rate : Option ℕ
  pub bits_per_sample : Option ℕ
  pub audio : Option (List ℕ)

abbrev pub no_chunks : Chunks
no_chunks = record {
  fmt_tag = none;
  channels = none;
  sample_rate = none;
  bits_per_sample = none;
  audio = none;
}

-- `checked_add` on 64 bits.
unfoldable pub checked_add : ℕ → ℕ → Run ℕ WhisperError
checked_add a b =
    if ltb (a + b) (2 ^ 64)
    then pure (a + b)
    else fail (unsupported_audio "WAV: chunk size overflow")

-- The `match` on the identifier of a chunk.
unfoldable pub read_body : List ℕ → List ℕ → Chunks → Run Chunks WhisperError
read_body id body s =
    if bytes_eq id fmt_id && leb 16 (length body)
    then (u16_at body 0 >>= λ tag. u16_at body 2 >>= λ channels. u32_at body 4 >>= λ rate.
        u16_at body 14 >>= λ bits. pure (record s {
          fmt_tag = some tag;
          channels = some channels;
          sample_rate = some rate;
          bits_per_sample = some bits;
        }))
    else if bytes_eq id data_id
    then pure (record s { audio = some body })
    else pure s

module _ (lossy : List ℕ → String) where
  -- The body of the loop.
  unfoldable pub read_chunk : List ℕ → ℕ → Chunks → Run (ℕ × Chunks) WhisperError
  read_chunk bytes pos s = slice bytes pos (pos + 4) >>= λ id. u32_at bytes (pos + 4) >>= λ size.
      checked_add (pos + 8) size >>= λ body_end.
      if ltb (length bytes) body_end
      then fail (unsupported_audio ("WAV: chunk `" +++ lossy id +++ "` extends past EOF"))
      else (slice bytes (pos + 8) body_end >>= λ body. read_body id body s >>= λ s'.
          pure (pos + 8 + (if size % 2 == 0 then size else size + 1), s'))

  -- The loop. A chunk has 8 bytes at least, so it ends within as many rounds as there are bytes.
  unfoldable pub walk : ℕ → List ℕ → ℕ → Chunks → Run Chunks WhisperError
  walk zero bytes pos s = if leb (pos + 8) (length bytes) then out_of_fuel else pure s
  walk (suc fuel) bytes pos s =
      if leb (pos + 8) (length bytes)
      then (read_chunk bytes pos s >>= λ r. walk fuel bytes r.0 r.1)
      else pure s

-- `data.len() < 12 || &data[0..4] != b"RIFF" || &data[8..12] != b"WAVE"`, negated.
unfoldable pub has_header : List ℕ → Run Bool WhisperError
has_header bytes =
    if ltb (length bytes) 12
    then pure false
    else (slice bytes 0 4 >>= λ riff.
        slice bytes 8 12 >>= λ wave. pure (bytes_eq riff riff_id && bytes_eq wave wave_id))

abbrev or_error : {A : Type 0} → Option A → String → Result A WhisperError
or_error none message = err (unsupported_audio message)
or_error (some a) message = ok a

abbrev unwrap_or_zero : Option ℕ → ℕ
unwrap_or_zero none = 0
unwrap_or_zero (some n) = n

module _ (fl : Float32) where
  open fl use {F}

  -- The checks after the loop, on the format, the channels, the rate and the bits.
  unfoldable pub checked :
      ℕ → (channels sample_rate bits : ℕ) → List ℕ → Result (List F) WhisperError
  checked tag channels sample_rate bits audio =
      if not (channels == 1)
      then err (unsupported_audio ("WAV: expected mono, got " +++ decimal channels +++ " channels"))
      else if not (sample_rate == 16_000)
      then err
          (unsupported_audio ("WAV: expected 16000 Hz, got " +++ decimal sample_rate +++ " Hz"))
      else if tag == 1 && bits == 16
      then decode_pcm16 fl audio
      else if tag == 3 && bits == 32
      then decode_pcm_f32 fl audio
      else err (
          unsupported_audio (
            "WAV: only PCM-16 (fmt 1, 16-bit) or IEEE-FLOAT (fmt 3, 32-bit) supported; got fmt "
            +++ decimal tag
            +++ "/"
            +++ decimal bits
            +++ "-bit"))

  unfoldable pub finish : Chunks → Result (List F) WhisperError
  finish s = elim (or_error s.fmt_tag "WAV: missing fmt chunk") [
    | err e ↦ err e
    | ok tag ↦ elim (or_error s.audio "WAV: missing data chunk") [
      | err e ↦ err e
      | ok audio ↦
          checked tag (unwrap_or_zero s.channels) (unwrap_or_zero s.sample_rate)
            (unwrap_or_zero s.bits_per_sample) audio
    ]
  ]

  unfoldable pub decode_wav : (List ℕ → String) → List ℕ → Run (List F) WhisperError
  decode_wav lossy bytes = has_header bytes >>= λ is_wav.
      if is_wav
      then (walk lossy (length bytes) bytes 12 no_chunks >>= λ s. returned (finish s))
      else fail (unsupported_audio "WAV: missing RIFF/WAVE header")
