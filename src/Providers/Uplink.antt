-- ===== src/Providers/Uplink.antt =====
-- How the runners of crates/inference-runtime-deepgram/src/runner.rs and
-- crates/inference-runtime-assemblyai/src/runner.rs send audio: the chunks of the input, and the uplink
-- task, over a socket that may break after a number of frames. Reading a file is a parameter.
pub mod Sending
mod Examples
use Prim.Native.String.{String}
use Prim.Native.String.{◌++◌ as ◌+++◌}
use mathlib.Core.Option
use rakka_inference.Base.{
  List, Option, Result, [], err, if◌then◌else◌, length, ltb, map, none, ok, some, ℕ, ◌++◌, ◌>>=◌,
  ◌>>◌, ◌∷◌,
}
use rakka_inference.Core.Runtime.{speech_to_text}
use rakka_inference.Core.Error.{InferenceError, bad_request, network_error, unsupported}
use rakka_inference.Core.Audio.{AudioParams, AudioPayload, bytes, path, url}
use rakka_inference.Ws.Frame.{Frame, binary, text}
use rakka_inference.Providers.Chunking.{cut}

-- A stream is the list of what it yields.
pub data AudioInput : Type 0 where
  static : AudioPayload → AudioInput
  stream : AudioParams → (chunks : List (List ℕ)) → AudioInput

abbrev pub static_chunk_bytes : ℕ
static_chunk_bytes = 4_096

materialize_payload :
    (name : String)
    → (String → Result (List ℕ) String)
    → AudioPayload
    → Result (List ℕ × AudioParams) InferenceError
materialize_payload name reads (bytes content params) = ok (content, params)
materialize_payload name reads (path p params) = elim (reads p) [
  | ok content ↦ ok (content, params)
  | err e ↦ err (bad_request (name +++ ": read " +++ p +++ ": " +++ e))
]
materialize_payload name reads (url u params) =
    err (unsupported "execute_audio: URL audio payloads (use Stream or Bytes)" speech_to_text)

pub pieces_of : List (List ℕ × ℕ) → List (List ℕ)
pieces_of [] = []
pieces_of ((piece, end) ∷ rest) = piece ∷ pieces_of rest

-- The chunks are those that the spawned task sends.
pub open_audio_input :
    (name : String)
    → (String → Result (List ℕ) String)
    → AudioInput
    → Result (AudioParams × Option (List (List ℕ))) InferenceError
unfolding materialize_payload pieces_of
open_audio_input name reads (static payload) = do
  materialized ← materialize_payload name reads payload
  ok (materialized.1, Option.map pieces_of (cut static_chunk_bytes materialized.0))
open_audio_input name reads (stream params chunks) = ok (params, some chunks)

-- `tx.send`: the frames that are out.
transmit : Option (ℕ × String) → List Frame → Frame → Result (List Frame) String
transmit none sent frame = ok (sent ++ frame ∷ [])
transmit (some (limit, e)) sent frame =
    if ltb (length sent) limit then ok (sent ++ frame ∷ []) else err e

closed : List Frame → Result (List Frame) String → List Frame
closed sent (ok sent') = sent'
closed sent (err e) = sent

-- The frames that go out, and the error that is reported to the output.
pub uplink :
    (name close_json : String)
    → Option (ℕ × String)
    → List Frame
    → List (List ℕ)
    → List Frame × Option InferenceError
unfolding transmit closed
uplink name close_json breaks sent [] = (closed sent (transmit breaks sent (text close_json)), none)
uplink name close_json breaks sent ([] ∷ chunks) = uplink name close_json breaks sent chunks
uplink name close_json breaks sent ((b ∷ bs) ∷ chunks) =
    elim (transmit breaks sent (binary (b ∷ bs))) [
      | ok sent' ↦ uplink name close_json breaks sent' chunks
      | err e ↦ (sent, some (network_error (name +++ " ws send: " +++ e)))
    ]
