-- ===== src/Providers/AssemblyAi.antt =====
-- crates/inference-runtime-assemblyai/src/runner.rs and wire.rs. The checks of a request and its query,
-- and the envelopes; errors stand as the `InferenceError` that they become.
use Prim.Native.String.{String}
use Prim.Native.String.{◌++◌ as ◌+++◌}
use rakka_inference.Base.{
  Bool, List, Option, Result, [], err, if◌then◌else◌, map, none, not, ok, some, ℕ, ◌&&◌, ◌==◌,
  ◌>>=◌, ◌>>◌, ◌∷◌,
}
use rakka_inference.Base.Text.{decimal}
use rakka_inference.Core.Error.{InferenceError, bad_request, unsupported_audio_format}
use rakka_inference.Core.Audio.{AudioFormat, AudioParams, debug_format, pcm16_le}
use rakka_inference.Core.Audio.Chunks.{
  AudioOptions, TranscribeOptions, TranscriptChunk, WordTiming, audio2_face, transcribe,
}
use rakka_inference.Providers.Uplink.{AudioInput, open_audio_input}
use rakka_inference.Providers.Transcription.{Dialect}

assert_format_supported : AudioFormat → Result (Unit {0}) InferenceError
assert_format_supported pcm16_le = ok tt
assert_format_supported other = err (
    unsupported_audio_format (
      "AssemblyAI Streaming v3 only accepts 16-bit PCM mono (got "
      +++ debug_format other
      +++ "); resample upstream"))

assert_mono : AudioParams → Result (Unit {0}) InferenceError
assert_mono params =
    if params.channels == 1
    then ok tt
    else err (
        unsupported_audio_format (
          "assemblyai: only mono audio is supported (got "
          +++ decimal params.channels
          +++ " channels)"))

module _ (F : Type 0) where
  transcribe_options : AudioOptions F → Result (TranscribeOptions F) InferenceError
  transcribe_options (transcribe opts) = ok opts
  transcribe_options (audio2_face opts) =
      err (bad_request "assemblyai: AudioOptions::Audio2Face is not supported")

  -- `execute_audio` up to the connection: the chunks to send, and the query.
  pub prepare :
      (format_turns : Bool)
      → (String → Result (List ℕ) String)
      → AudioInput
      → AudioOptions F
      → Result (Option (List (List ℕ)) × List (String × String)) InferenceError
  unfolding transcribe_options assert_format_supported assert_mono
  prepare format_turns reads input options = do
    opts ← transcribe_options options
    opened ← open_audio_input "assemblyai" reads input
    assert_format_supported opened.0.format
    assert_mono opened.0
    ok (
      opened.1,
      ("sample_rate", decimal opened.0.sample_rate_hz)
          ∷ (if format_turns then ("format_turns", "true") ∷ [] else []),
    )

  pub record AssemblyWord : Type 0 where
    pub text : String
    pub start : ℕ
    pub finish : ℕ
    pub confidence : Option F
    pub word_is_final : Bool

  pub record TurnEnvelope : Type 0 where
    pub turn_order : ℕ
    pub turn_is_formatted : Bool
    pub end_of_turn : Bool
    pub end_of_turn_confidence : Option F
    pub transcript : String
    pub words : List AssemblyWord

  pub data InboundEnvelope : Type 0 where
    begin termination other : InboundEnvelope
    turn : TurnEnvelope → InboundEnvelope

  timing : AssemblyWord → WordTiming F
  timing w = record {
    text = w.text;
    ts_start_ms = w.start;
    ts_end_ms = w.finish;
    confidence = w.confidence;
  }

  first_start : List AssemblyWord → ℕ
  first_start [] = 0
  first_start (w ∷ ws) = w.start

  last_finish : List AssemblyWord → ℕ
  last_finish [] = 0
  last_finish (w ∷ []) = w.finish
  last_finish (w ∷ w' ∷ ws) = last_finish (w' ∷ ws)

  turn_to_chunk :
      {Cost : Type 0} (request_id : String)
      → TurnEnvelope
      → (want_words : Bool) → TranscriptChunk F Cost
  unfolding timing first_start last_finish
  turn_to_chunk request_id t want_words = record {
    request_id = request_id;
    is_final = t.end_of_turn;
    text = t.transcript;
    ts_start_ms = first_start t.words;
    ts_end_ms = last_finish t.words;
    speaker_id = none;
    words = if want_words then map timing t.words else [];
    usage = none;
  }

  pub chunk_of :
      {Cost : Type 0} (request_id : String)
      → TranscribeOptions F
      → InboundEnvelope
      → Option (TranscriptChunk F Cost)
  unfolding turn_to_chunk
  chunk_of request_id opts (turn t) =
      if not opts.interim_results && not t.end_of_turn
      then none
      else some (turn_to_chunk request_id t opts.word_timestamps)
  chunk_of request_id opts begin = none
  chunk_of request_id opts termination = none
  chunk_of request_id opts other = none

  unfoldable pub dialect :
      {Cost : Type 0} (parse : String → Result InboundEnvelope String) (request_id : String)
      → TranscribeOptions F
      → Dialect F Cost
  unfolding chunk_of
  dialect parse request_id opts = record {
    name = "assemblyai";
    Envelope = InboundEnvelope;
    parse = parse;
    chunk_of = chunk_of request_id opts;
  }
