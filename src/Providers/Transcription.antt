-- ===== src/Providers/Transcription.antt =====
-- The downlink task that the runners of crates/inference-runtime-deepgram/src/runner.rs and
-- crates/inference-runtime-assemblyai/src/runner.rs have in common. They differ in their envelopes,
-- of which serde's parsing is a parameter. The socket yields frames, and then an end or an error. The
-- output is what this task sends; an error of the uplink, which has a clone of the sender, is that of
-- Providers.Uplink, and may come between.
pub mod Delivery
mod Examples
use Prim.Native.String.{String}
use Prim.Native.String.{◌++◌ as ◌+++◌}
use rakka_inference.Base.{
  Bool, List, Option, Result, [], err, false, if◌then◌else◌, map, none, ok, some, true, ℕ, ◌++◌,
  ◌==◌, ◌||◌, ◌∷◌,
}
use rakka_inference.Base.Text.{decimal}
use rakka_inference.Core.Error.{InferenceError, internal, network_error}
use rakka_inference.Core.Audio.Chunks.{TranscriptChunk}
use rakka_inference.Ws.Frame.{Frame, binary, close, ping, pong, text}
use rakka_inference.Remote.Worker.{Output, send}
use rakka_inference.Runtime.Streams.{pump}

pub data SocketEnd : Type 0 where
  closed : SocketEnd
  broken : (e : String) → SocketEnd

-- The envelopes of a provider, and the chunk that one is turned into, if any.
pub record Dialect (F Cost : Type 0) : Type 1 where
  pub name : String
  pub Envelope : Type 0
  pub parse : String → Result Envelope String
  pub chunk_of : Envelope → Option (TranscriptChunk F Cost)

module _ {F Cost : Type 0} (d : Dialect F Cost) (request_id : String) where
  abbrev Chunk : Type 0
  Chunk = TranscriptChunk F Cost

  pub empty_terminal : Chunk
  empty_terminal = record {
    request_id = request_id;
    is_final = true;
    text = "";
    ts_start_ms = 0;
    ts_end_ms = 0;
    speaker_id = none;
    words = [];
    usage = none;
  }

  -- `produced.last_mut()` is marked as final.
  pub promote_last : List Chunk → List Chunk
  promote_last [] = []
  promote_last (c ∷ []) = record c { is_final = true } ∷ []
  promote_last (c ∷ c' ∷ cs) = c ∷ promote_last (c' ∷ cs)

  pub with_terminal : List Chunk → Bool → List Chunk
  unfolding promote_last empty_terminal
  with_terminal produced true = produced
  with_terminal [] false = empty_terminal ∷ []
  with_terminal (c ∷ cs) false = promote_last (c ∷ cs)

  -- What follows the loop.
  pub deliver : List Chunk → Bool → Output Chunk → Output Chunk
  unfolding with_terminal pump
  deliver produced saw_final o = pump o (map ok (with_terminal produced saw_final))

  pub sends : Output Chunk → InferenceError → Output Chunk
  unfolding send
  sends o e = (send o (err e)).0

  pub is_clean : ℕ → Bool
  is_clean code = code == 1000 || code == 1005 || code == 1006

  -- The loop; `last_idx` of the Deepgram runner is only tested for being set.
  pub listen : List Chunk → Bool → List Frame → SocketEnd → Output Chunk → Output Chunk
  unfolding deliver sends is_clean
  listen produced saw_final [] closed o = deliver produced saw_final o
  listen produced saw_final [] (broken e) o =
      sends o (network_error (d.name +++ " ws recv: " +++ e))
  listen produced saw_final (text t ∷ frames) end o = elim (d.parse t) [
    | err e ↦
        deliver produced saw_final (sends o (internal (d.name +++ " envelope decode: " +++ e)))
    | ok envelope ↦ elim (d.chunk_of envelope) [
      | none ↦ listen produced saw_final frames end o
      | some c ↦ listen (produced ++ c ∷ []) (saw_final || c.is_final) frames end o
    ]
  ]
  listen produced saw_final (close code reason ∷ frames) end o =
      if is_clean code
      then deliver produced saw_final o
      else sends o
          (network_error (d.name +++ " closed code=" +++ decimal code +++ " reason=" +++ reason))
  listen produced saw_final (binary b ∷ frames) end o = listen produced saw_final frames end o
  listen produced saw_final (ping b ∷ frames) end o = listen produced saw_final frames end o
  listen produced saw_final (pong b ∷ frames) end o = listen produced saw_final frames end o

  pub downlink : List Frame → SocketEnd → Output Chunk → Output Chunk
  unfolding listen
  downlink frames end o = listen [] false frames end o
