-- ===== src/Providers/Transcription/Delivery.antt =====
-- What a transcription delivers.
use mathlib.Core.List.{append_assoc, append-nil}
use Prim.Native.String.{String}
use Prim.Native.String.{◌++◌ as ◌+++◌}
use rakka_inference.Base.{
  Bool, Bool-cases, List, Option-cases, Result, Result-cases, [], ap, arith, err, false,
  if◌then◌else◌, inl, inr, map, none, ok, refl, some, sym, true, ◌++◌, ◌||◌, ◌∙◌, ◌∷◌, ◌≡◌,
}
use rakka_inference.Base.Text.{decimal}
use rakka_inference.Core.Error.{InferenceError, internal, network_error}
use rakka_inference.Core.Audio.Chunks.{TranscriptChunk}
use rakka_inference.Ws.Frame.{Frame, binary, close, ping, pong, text}
use rakka_inference.Remote.Worker.{Output, send}
use rakka_inference.Runtime.Streams.Delivery.{pump-open}
use rakka_inference.Providers.Transcription.{
  Dialect, SocketEnd, broken, closed, deliver, downlink, empty_terminal, is_clean, listen,
  promote_last, sends, with_terminal,
}

module _ {F Cost : Type 0} (d : Dialect F Cost) (request_id : String) where
  -- How the socket left the loop.
  pub data Ending : Type 0 where
    complete : Ending
    undecodable lost : InferenceError → Ending

  -- The chunks of the envelopes that came, in order, and how the socket left.
  pub hears : List Frame → SocketEnd → List (TranscriptChunk F Cost) × Ending
  hears [] closed = ([], complete)
  hears [] (broken e) = ([], lost (network_error (d.name +++ " ws recv: " +++ e)))
  hears (text t ∷ frames) end = elim (d.parse t) [
    | err e ↦ ([], undecodable (internal (d.name +++ " envelope decode: " +++ e)))
    | ok envelope ↦ elim (d.chunk_of envelope) [
      | none ↦ hears frames end
      | some c ↦ (c ∷ (hears frames end).0, (hears frames end).1)
    ]
  ]
  hears (close code reason ∷ frames) end = if is_clean d request_id code then ([], complete) else (
    [],
    lost (network_error (d.name +++ " closed code=" +++ decimal code +++ " reason=" +++ reason)),
  )
  hears (binary b ∷ frames) end = hears frames end
  hears (ping b ∷ frames) end = hears frames end
  hears (pong b ∷ frames) end = hears frames end

  pub any_final : List (TranscriptChunk F Cost) → Bool
  any_final [] = false
  any_final (c ∷ cs) = c.is_final || any_final cs

  -- The chunks as they came where one is final; otherwise with the last one marked, or an empty one.
  pub data IsMarked : List (TranscriptChunk F Cost) → List (TranscriptChunk F Cost) → Type 0 where
    already : (cs : List (TranscriptChunk F Cost)) → any_final cs ≡ true → IsMarked cs cs
    last_marked :
        (cs all : List (TranscriptChunk F Cost)) (c : TranscriptChunk F Cost)
        → all ≡ cs ++ c ∷ []
        → any_final all ≡ false
        → IsMarked all (cs ++ record c { is_final = true } ∷ [])
    nothing : IsMarked [] (empty_terminal d request_id ∷ [])

  pub data IsTranscript
      : List (TranscriptChunk F Cost)
        → Ending
        → List (Result (TranscriptChunk F Cost) InferenceError)
        → Type 0 where
    told :
        (heard cs : List (TranscriptChunk F Cost))
        → IsMarked heard cs
        → IsTranscript heard complete (map ok cs)
    told_after_error :
        (heard cs : List (TranscriptChunk F Cost)) (e : InferenceError)
        → IsMarked heard cs
        → IsTranscript heard (undecodable e) (err e ∷ map ok cs)
    all_lost :
        (heard : List (TranscriptChunk F Cost)) (e : InferenceError)
        → IsTranscript heard (lost e) (err e ∷ [])

  any_final-append :
      (cs : List (TranscriptChunk F Cost)) (c : TranscriptChunk F Cost)
      → any_final (cs ++ c ∷ []) ≡ (any_final cs || c.is_final)
  unfolding any_final
  any_final-append [] c = ground arith
  any_final-append (x ∷ cs) c = ground (arith, any_final-append cs c)

  promote_last-snoc :
      (c : TranscriptChunk F Cost) (cs : List (TranscriptChunk F Cost))
      → (first : List (TranscriptChunk F Cost)) × (last : TranscriptChunk F Cost) × (c ∷ cs
          ≡ first ++ last ∷ [])
        × (promote_last d request_id (c ∷ cs) ≡ first ++ record last { is_final = true } ∷ [])
  unfolding promote_last
  promote_last-snoc c [] = ([], c, refl, refl)
  promote_last-snoc c (c' ∷ cs) =
      let (first, last, e, e') = promote_last-snoc c' cs in
      (c ∷ first, last, ap (λ l. c ∷ l) e, ap (λ l. c ∷ l) e')

  with_terminal-IsMarked :
      (cs : List (TranscriptChunk F Cost)) (saw : Bool)
      → saw ≡ any_final cs
      → IsMarked cs (with_terminal d request_id cs saw)
  unfolding with_terminal any_final
  with_terminal-IsMarked cs true e = already cs (sym e)
  with_terminal-IsMarked [] false e = nothing
  with_terminal-IsMarked (c ∷ cs) false e =
      let (first, last, whole, marked) = promote_last-snoc c cs in
      rw marked (last_marked first (c ∷ cs) last whole (sym e))

  abbrev pub undropped :
      List (Result (TranscriptChunk F Cost) InferenceError) → Output (TranscriptChunk F Cost)
  undropped sent = record { sent = sent; drops_after = none }

  -- What is delivered behind `sent`, and that it is a transcript.
  Adds :
      List (Result (TranscriptChunk F Cost) InferenceError)
      → Output (TranscriptChunk F Cost)
      → List (TranscriptChunk F Cost)
      → Ending
      → Type 0
  Adds sent o heard ending =
      (items : List (Result (TranscriptChunk F Cost) InferenceError)) × (o.sent ≡ sent ++ items)
      × IsTranscript heard ending items

  deliver-Adds :
      (produced : List (TranscriptChunk F Cost)) (saw : Bool)
      (sent : List (Result (TranscriptChunk F Cost) InferenceError))
      → saw ≡ any_final produced
      → Adds sent (deliver d request_id produced saw (undropped sent)) (produced ++ []) complete
  unfolding Adds deliver
  deliver-Adds produced saw sent e = (
    map ok (with_terminal d request_id produced saw),
    pump-open sent (map ok (with_terminal d request_id produced saw)),
    rw append-nil (
        told produced (with_terminal d request_id produced saw)
          (with_terminal-IsMarked produced saw e)),
  )

  error-Adds :
      (produced : List (TranscriptChunk F Cost)) (saw : Bool) (x : InferenceError)
      (sent : List (Result (TranscriptChunk F Cost) InferenceError))
      → saw ≡ any_final produced
      → Adds sent
          (deliver d request_id produced saw (sends d request_id (undropped sent) x))
          (produced ++ [])
          (undecodable x)
  unfolding Adds deliver sends send
  error-Adds produced saw x sent e =
      let cs = with_terminal d request_id produced saw in
      (
        err x ∷ map ok cs,
        pump-open (sent ++ err x ∷ []) (map ok cs) ∙ append_assoc sent (err x ∷ []) (map ok cs),
        rw append-nil (told_after_error produced cs x (with_terminal-IsMarked produced saw e)),
      )

  lost-Adds :
      (heard : List (TranscriptChunk F Cost)) (x : InferenceError)
      (sent : List (Result (TranscriptChunk F Cost) InferenceError))
      → Adds sent (sends d request_id (undropped sent) x) heard (lost x)
  unfolding Adds sends send
  lost-Adds heard x sent = (err x ∷ [], refl, all_lost heard x)

  listen-Adds :
      (produced : List (TranscriptChunk F Cost)) (saw : Bool) (frames : List Frame)
      (end : SocketEnd) (sent : List (Result (TranscriptChunk F Cost) InferenceError))
      → saw ≡ any_final produced
      → Adds sent
          (listen d request_id produced saw frames end (undropped sent))
          (produced ++ (hears frames end).0)
          (hears frames end).1
  unfolding listen hears
  listen-Adds produced saw [] closed sent e = deliver-Adds produced saw sent e
  listen-Adds produced saw [] (broken x) sent e = lost-Adds (produced ++ []) _ sent
  listen-Adds produced saw (text t ∷ frames) end sent e = elim (Result-cases (d.parse t)) [
    | inl (envelope, parsed) ↦ elim (Option-cases (d.chunk_of envelope)) [
      | inl nothing_said ↦
          rw (parsed, listen, hears, nothing_said) (listen-Adds produced saw frames end sent e)
      | inr (c, said) ↦
          rw (parsed, listen, hears, said, ← append_assoc produced (c ∷ []) (hears frames end).0)
            (listen-Adds (produced ++ c ∷ []) (saw || c.is_final) frames end sent
              (ap (λ b. b || c.is_final) e ∙ sym (any_final-append produced c)))
    ]
    | inr (x, unparsed) ↦ rw (unparsed, listen, hears) (error-Adds produced saw _ sent e)
  ]
  listen-Adds produced saw (close code reason ∷ frames) end sent e =
      elim (Bool-cases (is_clean d request_id code)) [
        | inl clean ↦ rw (clean, listen, hears) (deliver-Adds produced saw sent e)
        | inr unclean ↦ rw (unclean, listen, hears) (lost-Adds (produced ++ []) _ sent)
      ]
  listen-Adds produced saw (binary b ∷ frames) end sent e =
      listen-Adds produced saw frames end sent e
  listen-Adds produced saw (ping b ∷ frames) end sent e = listen-Adds produced saw frames end sent e
  listen-Adds produced saw (pong b ∷ frames) end sent e = listen-Adds produced saw frames end sent e

  -- Over an output that no receiver drops, the downlink delivers the chunks that it heard, in order: as
  -- they came where one of them is final, with the last marked as final where none is, and an empty final
  -- chunk where there are none. An envelope that cannot be decoded puts its error before them, and a
  -- socket that breaks, or closes with a code that is not clean, leaves nothing but its error.
  pub downlink-IsTranscript :
      (frames : List Frame) (end : SocketEnd)
      → IsTranscript
          (hears frames end).0
          (hears frames end).1
          (downlink d request_id frames end (undropped [])).sent
  unfolding downlink Adds any_final
  downlink-IsTranscript frames end =
      let (items, e, transcript) = listen-Adds [] false frames end [] refl in rw e transcript
