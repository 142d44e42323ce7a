-- ===== src/Providers/Deepgram.antt =====
-- crates/inference-runtime-deepgram/src/runner.rs and wire.rs. The checks of a request and its query,
-- and the envelopes; errors stand as the `InferenceError` that they become. 32-bit floats are a
-- parameter.
use Prim.Native.String.{String}
use rakka_inference.Base.{
  Bool, List, Option, Result, [], err, if◌then◌else◌, map, none, not, ok, some, ℕ, ◌&&◌, ◌++◌,
  ◌>>=◌, ◌∷◌,
}
use rakka_inference.Base.Text.{decimal}
use rakka_inference.Core.Error.{InferenceError, bad_request, unsupported_audio_format}
use rakka_inference.Core.Audio.{
  AudioFormat, AudioParams, flac, mp3, ogg_opus, pcm16_le, pcm24_le, pcm_f32_le, wav,
}
use rakka_inference.Core.Audio.Chunks.{
  AudioOptions, TranscribeOptions, TranscriptChunk, WordTiming, audio2_face, transcribe,
}
use rakka_inference.Providers.Uplink.{AudioInput, open_audio_input}
use rakka_inference.Providers.Transcription.{Dialect}

pub record Floats32 : Type 1 where
  pub F : Type 0
  pub zero_float : F
  pub thousand : F
  pub add : F → F → F
  pub mul : F → F → F
  pub max_float : F → F → F
  -- `x as u32` saturates.
  pub to_u32 : F → ℕ

pub deepgram_encoding : AudioFormat → Result String InferenceError
deepgram_encoding pcm16_le = ok "linear16"
deepgram_encoding pcm_f32_le = ok "linear32"
deepgram_encoding ogg_opus = ok "opus"
deepgram_encoding flac = ok "flac"
deepgram_encoding mp3 = ok "mp3"
deepgram_encoding wav = ok "wav"
deepgram_encoding pcm24_le =
    err
      (unsupported_audio_format "Deepgram does not accept 24-bit PCM directly; resample to 16-bit")

module _ (fl : Floats32) where
  open fl use {F, zero_float, thousand, add, mul, max_float, to_u32}

  pub transcribe_options : AudioOptions F → Result (TranscribeOptions F) InferenceError
  transcribe_options (transcribe opts) = ok opts
  transcribe_options (audio2_face opts) =
      err (bad_request "deepgram: AudioOptions::Audio2Face is not supported")

  language_pair : Option String → List (String × String)
  language_pair none = []
  language_pair (some lang) = ("language", lang) ∷ []

  -- The pairs that are appended to the query of the URL.
  query_pairs :
      (model encoding : String) (smart_format : Bool)
      → AudioParams
      → TranscribeOptions F
      → List (String × String)
  unfolding language_pair
  query_pairs model encoding smart_format params opts =
      (("model", model)
        ∷ ("encoding", encoding)
        ∷ ("sample_rate", decimal params.sample_rate_hz)
        ∷ ("channels", decimal params.channels)
        ∷ ("interim_results", if opts.interim_results then "true" else "false")
        ∷ [])
      ++ ((if opts.diarize then ("diarize", "true") ∷ [] else [])
          ++ ((if smart_format then ("smart_format", "true") ∷ [] else [])
              ++ (language_pair opts.language ++ (("endpointing", "300") ∷ []))))

  -- `execute_audio` up to the connection: the chunks to send, and the query.
  pub prepare :
      (model : String) (smart_format : Bool)
      → (String → Result (List ℕ) String)
      → AudioInput
      → AudioOptions F
      → Result (Option (List (List ℕ)) × List (String × String)) InferenceError
  unfolding transcribe_options deepgram_encoding query_pairs
  prepare model smart_format reads input options = do
    opts ← transcribe_options options
    opened ← open_audio_input "deepgram" reads input
    encoding ← deepgram_encoding opened.0.format
    ok (opened.1, query_pairs model encoding smart_format opened.0 opts)

  pub record DeepgramWord : Type 0 where
    pub word : String
    pub punctuated_word : Option String
    pub start : F
    pub finish : F
    pub confidence : Option F
    pub speaker : Option ℕ

  pub record TranscriptAlternative : Type 0 where
    pub transcript : String
    pub confidence : Option F
    pub words : List DeepgramWord

  -- `channel.alternatives` stands as `alternatives`.
  pub record ResultsEnvelope : Type 0 where
    pub start : F
    pub duration : F
    pub is_final : Bool
    pub speech_final : Bool
    pub alternatives : List TranscriptAlternative

  pub data InboundEnvelope : Type 0 where
    results : ResultsEnvelope → InboundEnvelope
    metadata other : InboundEnvelope

  pub seconds_to_ms : F → ℕ
  seconds_to_ms s = to_u32 (max_float (mul s thousand) zero_float)

  first_alternative : List TranscriptAlternative → TranscriptAlternative
  first_alternative [] = record { transcript = ""; confidence = none; words = [] }
  first_alternative (alt ∷ alts) = alt

  -- The `find_map` over the words.
  first_speaker : List DeepgramWord → Option String
  first_speaker [] = none
  first_speaker (w ∷ ws) = elim w.speaker [ none ↦ first_speaker ws | some s ↦ some (decimal s) ]

  unwrap_or : Option String → String → String
  unwrap_or none word = word
  unwrap_or (some punctuated) word = punctuated

  timing : DeepgramWord → WordTiming F
  unfolding seconds_to_ms unwrap_or
  timing w = record {
    text = unwrap_or w.punctuated_word w.word;
    ts_start_ms = seconds_to_ms w.start;
    ts_end_ms = seconds_to_ms w.finish;
    confidence = w.confidence;
  }

  results_to_chunk :
      {Cost : Type 0} (request_id : String)
      → ResultsEnvelope
      → (want_diarize want_words : Bool) → TranscriptChunk F Cost
  unfolding seconds_to_ms first_alternative first_speaker timing
  results_to_chunk request_id r want_diarize want_words =
      let alt = first_alternative r.alternatives in
      record {
        request_id = request_id;
        is_final = r.speech_final;
        text = alt.transcript;
        ts_start_ms = seconds_to_ms r.start;
        ts_end_ms = seconds_to_ms (add r.start r.duration);
        speaker_id = if want_diarize then first_speaker alt.words else none;
        words = if want_words then map timing alt.words else [];
        usage = none;
      }

  pub chunk_of :
      {Cost : Type 0} (request_id : String)
      → TranscribeOptions F
      → InboundEnvelope
      → Option (TranscriptChunk F Cost)
  unfolding results_to_chunk
  chunk_of request_id opts (results r) =
      if not opts.interim_results && not r.is_final
      then none
      else some (results_to_chunk request_id r opts.diarize opts.word_timestamps)
  chunk_of request_id opts metadata = none
  chunk_of request_id opts other = none

  pub dialect :
      {Cost : Type 0} (parse : String → Result InboundEnvelope String) (request_id : String)
      → TranscribeOptions F
      → Dialect F Cost
  unfolding chunk_of
  dialect parse request_id opts = record {
    name = "deepgram";
    Envelope = InboundEnvelope;
    parse = parse;
    chunk_of = chunk_of request_id opts;
  }
