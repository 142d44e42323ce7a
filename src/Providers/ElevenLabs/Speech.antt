-- ===== src/Providers/ElevenLabs/Speech.antt =====
-- What a stream delivers.
use mathlib.Core.List.{append_assoc}
use Prim.Native.String.{String}
use Prim.Native.String.{◌++◌ as ◌+++◌}
use rakka_inference.Base.{
  Bool, Bool-cases, List, Option-cases, Result, Result-cases, [], err, false, if◌then◌else◌, inl,
  inr, none, ok, refl, true, ℕ, ◌++◌, ◌==◌, ◌∙◌, ◌∷◌, ◌≡◌,
}
use rakka_inference.Core.Error.{InferenceError, network_error}
use rakka_inference.Core.Audio.{AudioParams}
use rakka_inference.Core.Audio.Chunks.{SpeechChunk}
use rakka_inference.Ws.Frame.{Frame, binary, close, ping, pong, text}
use rakka_inference.Remote.Worker.{Output, send}
use rakka_inference.Providers.Transcription.{SocketEnd, broken, closed}
use rakka_inference.Providers.ElevenLabs.{
  WsInboundFrame, audio_of, chunk_of, read_frames, read_socket, reported, speech,
}

-- Chunks of which the last alone is final, with at most one error, right before it.
pub data IsSpeech {F Cost : Type 0}
    : List (Result (SpeechChunk F Cost) InferenceError) → Type 0 where
  ends : (c : SpeechChunk F Cost) → c.is_final ≡ true → IsSpeech (ok c ∷ [])
  ends_after_error :
      (e : InferenceError) (c : SpeechChunk F Cost)
      → c.is_final ≡ true
      → IsSpeech (err e ∷ ok c ∷ [])
  goes_on :
      (c : SpeechChunk F Cost) (rest : List (Result (SpeechChunk F Cost) InferenceError))
      → c.is_final ≡ false
      → IsSpeech rest
      → IsSpeech (ok c ∷ rest)

module _ (F Cost : Type 0) (request_id : String) (params : AudioParams)
    (parse : String → Result WsInboundFrame String) (decode : String → Result (List ℕ) String)
    (emit_alignment : Bool) where
  abbrev pub undropped :
      List (Result (SpeechChunk F Cost) InferenceError) → Output (SpeechChunk F Cost)
  undropped sent = record { sent = sent; drops_after = none }

  abbrev Items : Type 0
  Items = List (Result (SpeechChunk F Cost) InferenceError)

  abbrev read_all :
      List Frame → SocketEnd → Output (SpeechChunk F Cost) → Output (SpeechChunk F Cost)
  read_all = read_socket F Cost request_id params parse decode emit_alignment

  Adds : Items → Output (SpeechChunk F Cost) → Type 0
  Adds sent o = (items : Items) × (o.sent ≡ sent ++ items) × IsSpeech items

  -- What follows a loop that ends by itself, and one that reports an error.
  after_loop :
      (sent : Items)
      → Adds sent (send (undropped sent) (ok (speech F Cost request_id params true [] none))).0
  unfolding Adds send speech
  after_loop sent = (ok (speech F Cost request_id params true [] none) ∷ [], refl, ends _ refl)

  after_error :
      (sent : Items) (e : InferenceError)
      → Adds sent
          (send
            (undropped (sent ++ err e ∷ []))
            (ok (speech F Cost request_id params true [] none))).0
  unfolding Adds send speech
  after_error sent e =
      let final = speech F Cost request_id params true [] none in
      (
        err e ∷ ok final ∷ [],
        append_assoc sent (err e ∷ []) (ok final ∷ []),
        ends_after_error e final refl,
      )

  final_chunk :
      (sent : Items) (c : SpeechChunk F Cost)
      → c.is_final ≡ true
      → Adds sent (undropped (sent ++ ok c ∷ []))
  unfolding Adds
  final_chunk sent c e = (ok c ∷ [], refl, ends c e)

  Adds-cons :
      (sent : Items) (c : SpeechChunk F Cost) (o : Output (SpeechChunk F Cost))
      → c.is_final ≡ false
      → Adds (sent ++ ok c ∷ []) o
      → Adds sent o
  unfolding Adds
  Adds-cons sent c o e (items, whole, spoken) =
      (ok c ∷ items, whole ∙ append_assoc sent (ok c ∷ []) items, goes_on c items e spoken)

  abbrev finished : Output (SpeechChunk F Cost) × Bool → Output (SpeechChunk F Cost)
  finished (o, sent_final) =
      if sent_final then o else (send o (ok (speech F Cost request_id params true [] none))).0

  after_chunk :
      (sent : Items) (c : SpeechChunk F Cost) (rest : Output (SpeechChunk F Cost) × Bool) (b : Bool)
      → c.is_final ≡ b
      → Adds (sent ++ ok c ∷ []) (finished rest)
      → Adds sent (finished (if b then (undropped (sent ++ ok c ∷ []), true) else rest))
  after_chunk sent c rest true e added = final_chunk sent c e
  after_chunk sent c rest false e added = Adds-cons sent c (finished rest) e added

  read_socket-Adds :
      (frames : List Frame) (end : SocketEnd) (sent : Items)
      → Adds sent (read_all frames end (undropped sent))
  unfolding read_socket read_frames reported send
  read_socket-Adds [] closed sent = after_loop sent
  read_socket-Adds [] (broken e) sent = after_error sent (network_error ("ws recv: " +++ e))
  read_socket-Adds (text t ∷ frames) end sent = elim (Result-cases (parse t)) [
    | inl (frame, parsed) ↦
        elim (Result-cases
          (audio_of F Cost request_id params parse decode emit_alignment frame.audio)) [
            | inl (audio, decoded) ↦
                elim (Option-cases
                  (chunk_of F Cost request_id params parse decode emit_alignment frame audio)) [
                    | inl silent ↦
                        rw (parsed, read_socket, read_frames, decoded, silent)
                          (read_socket-Adds frames end sent)
                    | inr (c, spoken) ↦
                        rw (parsed, read_socket, read_frames, decoded, spoken)
                          (after_chunk sent c
                            (read_frames F Cost request_id params parse decode emit_alignment frames
                              end (undropped (sent ++ ok c ∷ [])))
                            c.is_final refl (read_socket-Adds frames end (sent ++ ok c ∷ [])))
                  ]
            | inr (e, undecoded) ↦
                rw (parsed, read_socket, read_frames, undecoded) (after_error sent _)
          ]
    | inr (e, unparsed) ↦ rw (unparsed, read_socket, read_frames) (after_error sent _)
  ]
  read_socket-Adds (close code reason ∷ frames) end sent = elim (Bool-cases (code == 1000)) [
    | inl clean ↦ rw clean (after_loop sent)
    | inr unclean ↦ rw unclean (after_error sent _)
  ]
  read_socket-Adds (binary b ∷ frames) end sent = read_socket-Adds frames end sent
  read_socket-Adds (ping b ∷ frames) end sent = read_socket-Adds frames end sent
  read_socket-Adds (pong b ∷ frames) end sent = read_socket-Adds frames end sent

  -- Whatever the socket yields, and however it ends, a stream whose receiver stays delivers chunks of
  -- which exactly the last item is final, with at most one error, right before it.
  pub read_socket-IsSpeech :
      (frames : List Frame) (end : SocketEnd) → IsSpeech (read_all frames end (undropped [])).sent
  unfolding Adds
  read_socket-IsSpeech frames end =
      let (items, e, spoken) = read_socket-Adds frames end [] in rw e spoken
