-- ===== src/Providers/Transcription/Examples.antt =====
-- Turns of AssemblyAI over a socket that closes cleanly, and over one that breaks. A text of two letters
-- is the end of a turn.
use Prim.Native.String.{String}
use rakka_inference.Base.{
  Bool, List, Result, [], err, false, if◌then◌else◌, none, ok, refl, true, ℕ, ◌∷◌, ◌≡◌,
}
use rakka_inference.Base.Text.{str_eq}
use rakka_inference.Core.Error.{network_error}
use rakka_inference.Core.Audio.Chunks.{TranscribeOptions}
use rakka_inference.Ws.Frame.{Frame, ping, text}
use rakka_inference.Providers.Transcription.{Dialect, broken, closed, downlink}
use rakka_inference.Providers.Transcription.Delivery.{
  IsTranscript, downlink-IsTranscript, hears, undropped,
}
use rakka_inference.Providers.AssemblyAi.{InboundEnvelope, dialect, turn}

abbrev options : TranscribeOptions ℕ
options = record {
  language = none;
  interim_results = true;
  word_timestamps = false;
  diarize = false;
  prompt = none;
  temperature = none;
}

abbrev turn_of : String → Bool → InboundEnvelope ℕ
turn_of transcript end_of_turn = turn (record {
  turn_order = 0;
  turn_is_formatted = false;
  end_of_turn = end_of_turn;
  end_of_turn_confidence = none;
  transcript = transcript;
  words = [];
})

abbrev read_turn : String → Result (InboundEnvelope ℕ) String
read_turn t = if str_eq t "?" then err "expected value" else ok (turn_of t (str_eq t "hello"))

abbrev turns : Dialect ℕ ℕ
turns = dialect ℕ read_turn "req-1" options

abbrev frames : List Frame
frames = text "hel" ∷ ping [] ∷ text "hello" ∷ text "wor" ∷ []

-- Where the socket breaks, what was heard is lost.
lost_on_break :
    (downlink turns "req-1" frames (broken "reset") (undropped turns "req-1" [])).sent
    ≡ err (network_error "assemblyai ws recv: reset") ∷ []
unfolding downlink dialect
lost_on_break = refl

downlink-IsTranscript_example :
    IsTranscript turns "req-1"
      (hears turns "req-1" frames closed).0
      (hears turns "req-1" frames closed).1
      (downlink turns "req-1" frames closed (undropped turns "req-1" [])).sent
downlink-IsTranscript_example = downlink-IsTranscript turns "req-1" frames closed
