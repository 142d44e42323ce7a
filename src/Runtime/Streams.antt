-- ===== src/Runtime/Streams.antt =====
-- The loop over a runner's stream in crates/inference-runtime/src/engine_core.rs and worker.rs: every
-- item goes to the request's output channel, errors too, until the receiver is dropped.
pub mod Delivery
use rakka_inference.Base.{List, Result, [], err, if◌then◌else◌, ok, ◌∷◌}
use rakka_inference.Core.Error.{InferenceError}
use rakka_inference.Remote.Worker.{Output, send}

unfoldable pub items_of :
    {Chunk : Type 0}
    → Result (List (Result Chunk InferenceError)) InferenceError
    → List (Result Chunk InferenceError)
items_of (ok items) = items
items_of (err e) = err e ∷ []

module _ {Chunk : Type 0} where
  -- The `while let` over the stream's items.
  unfoldable pub pump : Output Chunk → List (Result Chunk InferenceError) → Output Chunk
  unfolding send
  pump o [] = o
  pump o (item ∷ items) =
      let (o', sent) = send o item in let rest = pump o' items in if sent then rest else o'
