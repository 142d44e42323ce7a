-- ===== src/Runtime/Request.antt =====
-- crates/inference-runtime/src/request.rs: the actor of one client request. What it sends to the
-- gateway is kept as a list, latest first; so are the answers that it delivers at its end.
pub mod Delivery
pub mod Answers
mod Examples
use rakka_inference.Base.{
  Bool, List, Result, [], err, false, if◌then◌else◌, none, ok, some, true, ◌∷◌,
}
use rakka_inference.Core.Error.{InferenceError, internal, timeout}
use rakka_inference.Core.Tokens.{TokenChunk, Tokens, append, default_tokens}
use Prim.Native.String.{String}

module _ (Json : Type 0) where
  pub record RequestActor : Type 0 where
    pub output : List (Result (TokenChunk Json) InferenceError)
    pub dispatched : Bool
    pub accumulator : Tokens
    pub has_done : Bool
    pub done : List Tokens
    pub stopped : Bool

  -- The coordinator's answer to `RouteTo`, within the time that the ask allows.
  pub data RouteAnswer : Type 0 where
    routed : RouteAnswer
    refused : InferenceError → RouteAnswer
    timed_out : RouteAnswer

  pub data RequestMsg : Type 0 where
    dispatch : (request_id : String) → RouteAnswer → RequestMsg
    chunk : Result (TokenChunk Json) InferenceError → RequestMsg
    cancel : RequestMsg

module _ {Json : Type 0} where
  unfoldable pub new : RequestActor Json
  new = record {
    output = [];
    dispatched = false;
    accumulator = default_tokens;
    has_done = true;
    done = [];
    stopped = false;
  }

  pub finish : RequestActor Json → RequestActor Json
  finish a =
      if a.has_done
      then record a {
        has_done = false;
        done = a.accumulator ∷ a.done;
        accumulator = default_tokens;
      }
      else a

  abbrev pub send : RequestActor Json → Result (TokenChunk Json) InferenceError → RequestActor Json
  send a item = record a { output = item ∷ a.output }

  -- `self.finish()` and then `ctx.stop_self()`.
  pub end : RequestActor Json → RequestActor Json
  unfolding finish
  end a = record (finish a) { stopped = true }

  pub answered : RequestActor Json → RouteAnswer Json → RequestActor Json
  unfolding end
  answered a routed = a
  answered a (refused e) = end (send a (err e))
  answered a timed_out = end (send a (err (internal "coordinator timeout")))

  pub handle : RequestActor Json → RequestMsg Json → RequestActor Json
  unfolding answered append
  handle a (dispatch request_id answer) =
      if a.dispatched
      then a
      else answered
          (record a {
            dispatched = true;
            accumulator = record (a.accumulator) { request_id = request_id };
          })
          answer
  handle a (chunk (ok c)) =
      let a' = send (record a { accumulator = append a.accumulator c }) (ok c) in
      elim c.finish_reason [ none ↦ a' | some _ ↦ end a' ]
  handle a (chunk (err e)) = end (send a (err e))
  handle a cancel = end a

  -- The messages are handled in turn, up to the one that stops the actor.
  unfoldable pub run : RequestActor Json → List (RequestMsg Json) → RequestActor Json
  unfolding handle
  run a [] = a
  run a (m ∷ ms) = let b = handle a m in let rest = run b ms in if b.stopped then b else rest
