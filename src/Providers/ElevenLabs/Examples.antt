-- ===== src/Providers/ElevenLabs/Examples.antt =====
-- A stream that ends in an error, and a body in three chunks.
use Prim.Native.String.{String}
use mathlib.Core.Option
use rakka_inference.Base.{
  List, Result, [], err, false, if◌then◌else◌, map, none, ok, refl, some, true, ℕ, ◌∷◌, ◌≡◌,
}
use rakka_inference.Base.Text.{str_eq}
use rakka_inference.Core.Audio.{AudioParams, pcm16_le}
use rakka_inference.Core.Audio.Chunks.{SpeechChunk}
use rakka_inference.Ws.Frame.{Frame, ping, text}
use rakka_inference.Providers.Chunking.{cut}
use rakka_inference.Providers.Transcription.{closed}
use rakka_inference.Providers.ElevenLabs.{WsInboundFrame, body_chunks, read_socket}
use rakka_inference.Providers.ElevenLabs.Speech.{IsSpeech, read_socket-IsSpeech, undropped}
use rakka_inference.Providers.ElevenLabs.Bodies.{IsBody, body_chunks-IsBody}

abbrev output : AudioParams
output = record { sample_rate_hz = 24_000; channels = 1; format = pcm16_le }

abbrev parse : String → Result WsInboundFrame String
parse t =
    if str_eq t "?"
    then err "expected value"
    else ok (record { audio = some t; alignment = none; is_final = none })

abbrev decode : String → Result (List ℕ) String
decode t = ok (1 ∷ 2 ∷ [])

abbrev frames : List Frame
frames = text "AQI=" ∷ ping [] ∷ text "" ∷ text "?" ∷ []

cut_in_three :
    Option.map
      (map (λ (c : SpeechChunk ℕ ℕ). c.is_final))
      (body_chunks ℕ ℕ "req-1" output 2 (1 ∷ 2 ∷ 3 ∷ 4 ∷ 5 ∷ []))
    ≡ some (false ∷ false ∷ true ∷ [])
unfolding body_chunks cut
cut_in_three = refl

read_socket-IsSpeech_example :
    IsSpeech
      (read_socket ℕ ℕ "req-1" output parse decode false frames closed
        (undropped ℕ ℕ "req-1" output parse decode false [])).sent
read_socket-IsSpeech_example =
    read_socket-IsSpeech ℕ ℕ "req-1" output parse decode false frames closed

body_chunks-IsBody_example :
    (chunks : List (SpeechChunk ℕ ℕ)) × (body_chunks ℕ ℕ "req-1" output 2 (1 ∷ 2 ∷ 3 ∷ [])
      ≡ some chunks)
    × IsBody 2 (1 ∷ 2 ∷ 3 ∷ []) chunks
body_chunks-IsBody_example = body_chunks-IsBody ℕ ℕ "req-1" output 2 (1 ∷ 2 ∷ 3 ∷ [])
