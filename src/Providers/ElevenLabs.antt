-- ===== src/Providers/ElevenLabs.antt =====
-- crates/inference-runtime-elevenlabs/src/runner.rs: the audio of a response over HTTPS, and the task
-- that reads the socket of a stream. The parsing of JSON and the base64 crate are parameters; errors
-- stand as the `InferenceError` that they become.
pub mod Speech
pub mod Bodies
mod Examples
use Prim.Native.String.{String}
use Prim.Native.String.{◌++◌ as ◌+++◌}
use Prim.Native.Nat.{min}
use mathlib.Core.Option
use rakka_inference.Base.{
  Bool, List, Option, Result, [], err, false, if◌then◌else◌, length, map, max, none, not, ok, set,
  some, true, ℕ, ◌&&◌, ◌+◌, ◌-◌, ◌==◌, ◌^◌, ◌∷◌,
}
use rakka_inference.Base.Text.{decimal, str_eq}
use rakka_inference.Core.Error.{
  InferenceError, bad_request, internal, network_error, unsupported_audio_format,
}
use rakka_inference.Core.Audio.{
  AudioFormat, AudioParams, flac, mp3, ogg_opus, pcm16_le, pcm24_le, pcm_f32_le, wav,
}
use rakka_inference.Core.Audio.Chunks.{
  AlignmentDelta, SpeechChunk, VoiceRef, WordTiming, cloned_from, id, named,
}
use rakka_inference.Ws.Frame.{Frame, binary, close, ping, pong, text}
use rakka_inference.Remote.Worker.{Output, send}
use rakka_inference.Providers.Chunking.{cut}
use rakka_inference.Providers.Transcription.{SocketEnd, broken, closed}

format_or_mp3 : Option AudioFormat → AudioFormat
format_or_mp3 none = mp3
format_or_mp3 (some format) = format

output_name : AudioFormat → Result String InferenceError
output_name pcm16_le = ok "pcm_24000"
output_name pcm24_le = ok "pcm_24000"
output_name pcm_f32_le =
    err (
      unsupported_audio_format "ElevenLabs does not emit PcmF32Le; choose Pcm16Le, Mp3, or OggOpus")
output_name mp3 = ok "mp3_44100_128"
output_name ogg_opus = ok "opus_48000_64"
output_name flac = err (
    unsupported_audio_format
      "ElevenLabs does not support Flac/Wav output; choose Mp3, Pcm16Le, or OggOpus")
output_name wav = err (
    unsupported_audio_format
      "ElevenLabs does not support Flac/Wav output; choose Mp3, Pcm16Le, or OggOpus")

elevenlabs_output_format : Option AudioFormat → Result String InferenceError
unfolding output_name format_or_mp3
elevenlabs_output_format format = output_name (format_or_mp3 format)

sample_rate_of : AudioFormat → ℕ
sample_rate_of pcm16_le = 24_000
sample_rate_of pcm24_le = 24_000
sample_rate_of ogg_opus = 48_000
sample_rate_of _ = 44_100

output_params : Option AudioFormat → AudioParams
unfolding sample_rate_of format_or_mp3
output_params requested = record {
  sample_rate_hz = sample_rate_of (format_or_mp3 requested);
  channels = 1;
  format = format_or_mp3 requested;
}

resolve_voice_id : (default_voice_id : Option String) → VoiceRef → Result String InferenceError
resolve_voice_id default_voice_id (named s) = ok s
resolve_voice_id default_voice_id (id s) = ok s
resolve_voice_id none (cloned_from sample) = err (
    bad_request
      "ClonedFrom requires prior /v1/voices/add; pass VoiceRef::Id(new_id) to speak, or set ElevenLabsTtsConfig::default_voice_id")
resolve_voice_id (some voice) (cloned_from sample) = ok voice

pub record WsAlignment : Type 0 where
  pub chars : List String
  pub char_start_times_ms : List ℕ
  pub char_durations_ms : List ℕ

pub record WsInboundFrame : Type 0 where
  pub audio : Option String
  pub alignment : Option WsAlignment
  pub is_final : Option Bool

module _ (F Cost : Type 0) where
  -- The loop stops at the shortest of the three vectors; `saturating_add` on 32 bits.
  timings : List String → List ℕ → List ℕ → List (WordTiming F)
  timings (c ∷ cs) (start ∷ starts) (duration ∷ durations) =
      record {
        text = c;
        ts_start_ms = start;
        ts_end_ms = min (start + duration) (2 ^ 32 - 1);
        confidence = none;
      }
      ∷ timings cs starts durations
  timings [] starts durations = []
  timings (c ∷ cs) [] durations = []
  timings (c ∷ cs) (start ∷ starts) [] = []

  ws_alignment_to_delta : WsAlignment → AlignmentDelta F
  unfolding timings
  ws_alignment_to_delta a = record {
    words = timings a.chars a.char_start_times_ms a.char_durations_ms;
    visemes = [];
  }

  module _ (request_id : String) (params : AudioParams) where
    pub speech : Bool → List ℕ → Option (AlignmentDelta F) → SpeechChunk F Cost
    speech is_final audio alignment = record {
      request_id = request_id;
      is_final = is_final;
      audio_pcm_chunk = audio;
      params = params;
      alignment = alignment;
      usage = none;
    }

    pub chunks_of : ℕ → List (List ℕ × ℕ) → List (SpeechChunk F Cost)
    unfolding speech
    chunks_of total [] = []
    chunks_of total ((slice, end) ∷ pieces) =
        speech (end == total) slice none ∷ chunks_of total pieces

    -- The body of a response, as `speak_https` streams it.
    pub body_chunks : (chunk_bytes : ℕ) → List ℕ → Option (List (SpeechChunk F Cost))
    unfolding chunks_of
    body_chunks chunk_bytes [] = some (speech true [] none ∷ [])
    body_chunks chunk_bytes (b ∷ bs) =
        Option.map (chunks_of (length (b ∷ bs))) (cut (max chunk_bytes 1) (b ∷ bs))

    module _ (parse : String → Result WsInboundFrame String)
        (decode : String → Result (List ℕ) String) (emit_alignment : Bool) where
      abbrev Out : Type 0
      Out = Output (SpeechChunk F Cost)

      pub audio_of : Option String → Result (List ℕ) String
      audio_of none = ok []
      audio_of (some b64) = if str_eq b64 "" then ok [] else decode b64

      alignment_of : Option WsAlignment → Option (AlignmentDelta F)
      unfolding ws_alignment_to_delta
      alignment_of none = none
      alignment_of (some a) = if emit_alignment then some (ws_alignment_to_delta a) else none

      is_set : Option Bool → Bool
      is_set none = false
      is_set (some b) = b

      is_none : Option (AlignmentDelta F) → Bool
      is_none none = true
      is_none (some a) = false

      -- The chunk of a frame, if it is not silent.
      pub chunk_of : WsInboundFrame → List ℕ → Option (SpeechChunk F Cost)
      unfolding speech alignment_of is_set is_none
      chunk_of frame audio =
          let alignment = alignment_of frame.alignment in
          if length audio == 0 && is_none alignment && not (is_set frame.is_final)
          then none
          else some (speech (is_set frame.is_final) audio alignment)

      pub reported : Out → InferenceError → Out × Bool
      unfolding send
      reported o e = ((send o (err e)).0, false)

      -- The loop: the output, and `sent_final`.
      pub read_frames : List Frame → SocketEnd → Out → Out × Bool
      unfolding audio_of reported
      read_frames [] closed o = (o, false)
      read_frames [] (broken e) o = reported o (network_error ("ws recv: " +++ e))
      read_frames (text t ∷ frames) end o = elim (parse t) [
        | err e ↦ reported o (internal ("ws frame decode: " +++ e))
        | ok frame ↦ elim (audio_of frame.audio) [
          | err e ↦ reported o (internal ("ws audio b64: " +++ e))
          | ok audio ↦ elim (chunk_of frame audio) [
            | none ↦ read_frames frames end o
            | some c ↦
                let (o', sent) = send o (ok c) in
                let rest = read_frames frames end o' in
                if not sent then (o', false) else if c.is_final then (o', true) else rest
          ]
        ]
      ]
      read_frames (close code reason ∷ frames) end o =
          if code == 1000
          then (o, false)
          else reported o
              (network_error ("ws closed code=" +++ decimal code +++ " reason=" +++ reason))
      read_frames (binary b ∷ frames) end o = read_frames frames end o
      read_frames (ping b ∷ frames) end o = read_frames frames end o
      read_frames (pong b ∷ frames) end o = read_frames frames end o

      pub read_socket : List Frame → SocketEnd → Out → Out
      unfolding read_frames
      read_socket frames end o =
          let (o', sent_final) = read_frames frames end o in
          if sent_final then o' else (send o' (ok (speech true [] none))).0
