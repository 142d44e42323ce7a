-- ===== src/Local/Whisper/Examples.antt =====
-- Decoding of small files.
use rakka_inference.Local.Run.{byte_at, pure, returned, slice, u16_at, u32_at}
use rakka_inference.Base.{List, Result, [], arith, err, map, refl, true, ℕ, ◌∷◌, ◌≡◌}
use rakka_inference.Base.Integers.{negsuc, pos, ℤ}
use rakka_inference.Local.Whisper.{WhisperError}
use rakka_inference.Local.Whisper.Samples.{Float32, decode_pcm16, i16, sample16, samples16}
use rakka_inference.Local.Whisper.Samples.Encoding.{pcm16_bytes}
use rakka_inference.Local.Whisper.Wav.{
  checked, checked_add, decode_wav, finish, has_header, read_body, read_chunk, walk,
}
use rakka_inference.Core.Audio.{AudioPayload, bytes, path, payload_params, pcm16_le}
use rakka_inference.Local.Whisper.Wav.File.{Extra, IsExtra, wav_file}
use rakka_inference.Local.Whisper.Wav.RoundTrip.{decode_wav-wav_file}
use rakka_inference.Local.Whisper.Payload.{IoError, check_params, decode_bytes, payload_to_f32_pcm}
use rakka_inference.Local.Whisper.Payload.Acceptance.{payload_to_f32_pcm-total}
use Prim.Native.String.{String}

-- Floats as quotients.
abbrev quotients : Float32
quotients = record {
  F = ℤ × ℤ;
  of_ℤ = λ n. (n, pos 1);
  div = λ a b. (a.0, b.0);
  from_bits = λ w. (pos w, pos 1);
}

abbrev unnamed : List ℕ → String
unnamed _ = "?"

-- A `LIST` chunk of three bytes, and its padding.
abbrev listing : Extra
listing = record { id = b'L' ∷ b'I' ∷ b'S' ∷ b'T' ∷ []; body = 1 ∷ 2 ∷ 3 ∷ [] }

abbrev content : List ℕ
content = wav_file (listing ∷ []) [] (pcm16_bytes (5 ∷ 65_535 ∷ []))

file_decoded :
    decode_wav quotients unnamed content ≡ pure ((pos 5, pos 32_767) ∷ (negsuc 0, pos 32_767) ∷ [])
unfolding decode_wav has_header walk read_chunk checked_add read_body finish checked decode_pcm16
    samples16 sample16 i16 slice u32_at u16_at byte_at
file_decoded = refl

listing-IsExtra : IsExtra listing
listing-IsExtra = record { four = refl; no_fmt = refl; no_data = refl; fits = omega arith }

decode_wav-wav_file_example :
    decode_wav quotients unnamed (wav_file (listing ∷ []) [] (pcm16_bytes (5 ∷ 65_535 ∷ [])))
    ≡ pure (map (sample16 quotients) (5 ∷ 65_535 ∷ []))
decode_wav-wav_file_example =
    decode_wav-wav_file quotients unnamed (listing ∷ []) [] (5 ∷ 65_535 ∷ []) (listing-IsExtra, tt)
      tt (omega arith, (omega arith, tt)) (omega arith)

abbrev no_file : String → Result (List ℕ) IoError
no_file _ = err (record { is_not_found = true; display = "" })

abbrev speech : AudioPayload
speech = bytes (5 ∷ 0 ∷ []) (record { sample_rate_hz = 16_000; channels = 1; format = pcm16_le })

speech_decoded :
    payload_to_f32_pcm quotients unnamed no_file speech 16_000 ≡ pure ((pos 5, pos 32_767) ∷ [])
unfolding payload_to_f32_pcm decode_bytes check_params decode_pcm16 samples16 sample16 i16
speech_decoded = refl

payload_to_f32_pcm-total_example :
    (r : Result (List (ℤ × ℤ)) WhisperError) × (payload_to_f32_pcm quotients unnamed no_file
        (path "talk.wav" (payload_params speech))
        16_000
      ≡ returned r)
payload_to_f32_pcm-total_example =
    payload_to_f32_pcm-total quotients unnamed no_file (path "talk.wav" (payload_params speech))
      16_000
