-- ===== src/Local/Whisper/Wav/File.antt =====
-- A file as an encoder writes it.
use rakka_inference.Base.{
  List, [], false, if◌then◌else◌, length, ℕ, ◌%◌, ◌++◌, ◌+◌, ◌<◌, ◌==◌, ◌^◌, ◌∷◌, ◌≡◌,
}
use rakka_inference.Local.Run.Parts.{u32_bytes}
use rakka_inference.Local.Whisper.Wav.{bytes_eq, data_id, fmt_id, riff_id, wave_id}

-- Chunks are word-aligned.
abbrev pub padding : List ℕ → List ℕ
padding body = if length body % 2 == 0 then [] else 0 ∷ []

abbrev pub chunk_bytes : List ℕ → List ℕ → List ℕ
chunk_bytes id body = id ++ (u32_bytes (length body) ++ (body ++ padding body))

-- A chunk that is neither `fmt ` nor `data`.
pub record Extra : Type 0 where
  pub id : List ℕ
  pub body : List ℕ

pub record IsExtra (x : Extra) : Type 0 where
  pub four : length x.id ≡ 4
  pub no_fmt : bytes_eq x.id fmt_id ≡ false
  pub no_data : bytes_eq x.id data_id ≡ false
  pub fits : length x.body < 2 ^ 32

abbrev pub extra_bytes : List Extra → List ℕ
extra_bytes [] = []
extra_bytes (x ∷ xs) = chunk_bytes x.id x.body ++ extra_bytes xs

-- PCM, mono, 16,000 Hz, 32,000 bytes a second, 2 bytes a sample, 16 bits.
abbrev pub fmt_body : List ℕ
fmt_body = 1 ∷ 0 ∷ 1 ∷ 0 ∷ 128 ∷ 62 ∷ 0 ∷ 0 ∷ 0 ∷ 125 ∷ 0 ∷ 0 ∷ 2 ∷ 0 ∷ 16 ∷ 0 ∷ []

abbrev pub chunks_bytes : List Extra → List Extra → List ℕ → List ℕ
chunks_bytes before between audio =
    extra_bytes before
    ++ (chunk_bytes fmt_id fmt_body ++ (extra_bytes between ++ chunk_bytes data_id audio))

abbrev pub wav_file : List Extra → List Extra → List ℕ → List ℕ
wav_file before between audio =
    riff_id
    ++ (u32_bytes (4 + length (chunks_bytes before between audio))
        ++ (wave_id ++ chunks_bytes before between audio))
