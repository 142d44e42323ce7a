-- ===== src/Providers/ElevenLabs/Bodies.antt =====
-- What the chunks of a response's body are.
use Prim.Native.String.{String}
use rakka_inference.Base.{
  All, List, [], ap, arith, false, length, max, none, refl, some, true, ℕ, ◌++◌, ◌∙◌, ◌∷◌, ◌≡◌, ◌≢◌,
  ◌≤◌,
}
use rakka_inference.Core.Audio.{AudioParams}
use rakka_inference.Core.Audio.Chunks.{SpeechChunk}
use rakka_inference.Providers.Chunking.Slices.{AreWithin, cut-AreSlices, joined}
use rakka_inference.Providers.ElevenLabs.{body_chunks, chunks_of, speech}

module _ {F Cost : Type 0} where
  pub audio : List (SpeechChunk F Cost) → List ℕ
  audio [] = []
  audio (c ∷ cs) = c.audio_pcm_chunk ++ audio cs

  -- There is a chunk, and exactly the last is final.
  pub LastIsFinal : List (SpeechChunk F Cost) → Type 0
  LastIsFinal [] = ⊥
  LastIsFinal (c ∷ []) = c.is_final ≡ true
  LastIsFinal (c ∷ c' ∷ cs) = (c.is_final ≡ false) × LastIsFinal (c' ∷ cs)

  pub record IsBody (size : ℕ) (body : List ℕ) (chunks : List (SpeechChunk F Cost)) : Type 0 where
    pub whole : audio chunks ≡ body
    pub last : LastIsFinal chunks
    pub small : All (λ c. length c.audio_pcm_chunk ≤ size) chunks

module _ (F Cost : Type 0) (request_id : String) (params : AudioParams) where
  abbrev made : ℕ → List (List ℕ × ℕ) → List (SpeechChunk F Cost)
  made = chunks_of F Cost request_id params

  made-audio : (total : ℕ) (pieces : List (List ℕ × ℕ)) → audio (made total pieces) ≡ joined pieces
  unfolding chunks_of audio joined speech
  made-audio total [] = refl
  made-audio total ((piece, end) ∷ pieces) = ap (λ l. piece ++ l) (made-audio total pieces)

  made-LastIsFinal :
      (size total : ℕ) (pieces : List (List ℕ × ℕ))
      → AreWithin size total pieces
      → pieces ≢ []
      → LastIsFinal (made total pieces)
  unfolding chunks_of LastIsFinal AreWithin speech
  made-LastIsFinal size total [] h ne = absurd (ne refl)
  made-LastIsFinal size total ((piece, end) ∷ []) h ne = ground (arith, h.2)
  made-LastIsFinal size total ((piece, end) ∷ q ∷ pieces) h ne =
      (ground (arith, h.0.2), made-LastIsFinal size total (q ∷ pieces) h.1 (λ e. cc))

  made-All :
      (size total : ℕ) (pieces : List (List ℕ × ℕ))
      → AreWithin size total pieces
      → All (λ c. length c.audio_pcm_chunk ≤ size) (made total pieces)
  unfolding chunks_of AreWithin speech
  made-All size total [] h = tt
  made-All size total ((piece, end) ∷ []) h = (h.1, tt)
  made-All size total ((piece, end) ∷ q ∷ pieces) h = (h.0.1, made-All size total (q ∷ pieces) h.1)

  -- A response of any length is streamed whole, in chunks of at most `chunk_bytes` bytes (1 where that is
  -- 0), at least one, of which exactly the last is final.
  pub body_chunks-IsBody :
      (chunk_bytes : ℕ) (body : List ℕ)
      → (chunks : List (SpeechChunk F Cost)) × (body_chunks F Cost request_id params chunk_bytes
            body
          ≡ some chunks)
        × IsBody (max chunk_bytes 1) body chunks
  unfolding body_chunks LastIsFinal audio speech
  body_chunks-IsBody chunk_bytes [] = (
    speech F Cost request_id params true [] none ∷ [],
    refl,
    record { whole = refl; last = refl; small = (omega arith, tt) },
  )
  body_chunks-IsBody chunk_bytes (b ∷ bs) =
      let (pieces, e, parted) = cut-AreSlices (max chunk_bytes 1) (b ∷ bs) (omega arith) in
      let total = length (b ∷ bs) in
      (
        made total pieces,
        rw e refl,
        record {
          whole = made-audio total pieces ∙ parted.whole;
          last =
              made-LastIsFinal (max chunk_bytes 1) total pieces parted.within
                (parted.some_left (omega arith));
          small = made-All (max chunk_bytes 1) total pieces parted.within;
        },
      )
