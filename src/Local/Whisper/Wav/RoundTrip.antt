-- ===== src/Local/Whisper/Wav/RoundTrip.antt =====
-- The decoding of a file.
use rakka_inference.Local.Run.{pure, returned}
use rakka_inference.Base.{
  All, List, [], ap, arith, false, length, length-append, ltb, map, refl, true, ℕ, ◌%◌, ◌++◌, ◌+◌,
  ◌<◌, ◌^◌, ◌∷◌, ◌≡◌, ◌≤◌,
}
use rakka_inference.Local.Whisper.Samples.{Float32, sample16}
use rakka_inference.Local.Whisper.Wav.{
  checked, data_id, decode_wav, finish, fmt_id, has_header, riff_id, wave_id,
}
use rakka_inference.Local.Run.Parts.{slice_part, u32_bytes}
use rakka_inference.Local.Whisper.Samples.Encoding.{
  decode_pcm16-pcm16_bytes, length-pcm16_bytes, pcm16_bytes,
}
use rakka_inference.Local.Whisper.Wav.File.{
  Extra, IsExtra, chunk_bytes, chunks_bytes, extra_bytes, fmt_body, padding, wav_file,
}
use rakka_inference.Local.Whisper.Wav.Walking.{ltb-false, walk_file}
use Prim.Native.String.{String}

length-extra_bytes : (xs : List Extra) → All IsExtra xs → length xs ≤ length (extra_bytes xs)
length-extra_bytes [] h = omega arith
length-extra_bytes (x ∷ xs) h = omega (
  arith,
  h.0.four,
  length-extra_bytes xs h.1,
  length-append (chunk_bytes x.id x.body) (extra_bytes xs),
  length-append x.id (u32_bytes (length x.body) ++ (x.body ++ padding x.body)),
)

length-chunks_bytes :
    (before between : List Extra) (audio : List ℕ)
    → All IsExtra before
    → All IsExtra between
    → length before + length between + length audio + 8 ≤ length (chunks_bytes before between audio)
length-chunks_bytes before between audio hb hm =
    let fmt = chunk_bytes fmt_id fmt_body in
    let at_end = chunk_bytes data_id audio in
    omega (
      arith,
      length-extra_bytes before hb,
      length-extra_bytes between hm,
      length-append (extra_bytes before) (fmt ++ (extra_bytes between ++ at_end)),
      length-append fmt (extra_bytes between ++ at_end),
      length-append (extra_bytes between) at_end,
      length-append audio (padding audio),
    )

header_read :
    (n : ℕ) (content : List ℕ)
    → has_header (riff_id ++ (u32_bytes n ++ (wave_id ++ content))) ≡ pure true
unfolding has_header
header_read n content =
    let bytes = riff_id ++ (u32_bytes n ++ (wave_id ++ content)) in
    let long : ltb (length bytes) 12 ≡ false = ltb-false _ _ (omega arith) in
    rw long (
      rw (slice_part bytes [] riff_id (u32_bytes n ++ (wave_id ++ content)) 0 4 refl refl refl)
        (rw (slice_part bytes (riff_id ++ u32_bytes n) wave_id content 8 12 refl refl refl) refl))

module _ (fl : Float32) (lossy : List ℕ → String) where
  -- A file that an encoder writes is decoded to its samples.
  pub decode_wav-wav_file :
      (before between : List Extra) (ws : List ℕ)
      → All IsExtra before
      → All IsExtra between
      → All (λ w. w < 2 ^ 16) ws
      → length (wav_file before between (pcm16_bytes ws)) < 2 ^ 32
      → decode_wav fl lossy (wav_file before between (pcm16_bytes ws)) ≡ pure (map (sample16 fl) ws)
  unfolding decode_wav finish checked
  decode_wav-wav_file before between ws hb hm hw short =
      let audio = pcm16_bytes ws in
      let content = chunks_bytes before between audio in
      let bytes = wav_file before between audio in
      let even : length audio % 2 ≡ 0 = omega (arith, length-pcm16_bytes ws) in
      let size = length-chunks_bytes before between audio hb hm in
      rw (header_read (4 + length content) content) (
        rw
          (walk_file lossy (length bytes) bytes
            (riff_id ++ (u32_bytes (4 + length content) ++ wave_id)) before between audio refl hb hm
            (omega (arith, size)) even (omega arith) (omega (arith, size)))
          (ap returned (decode_pcm16-pcm16_bytes fl ws hw)))
