-- ===== src/Runtime/Request/Delivery.antt =====
-- What the request delivers at its end.
use rakka_inference.Base.{
  Bool, List, Option-cases, Result, [], ap, err, false, if◌then◌else◌, inl, inr, ok, refl, true,
  ◌∷◌, ◌≡◌, ◌⊎◌,
}
use rakka_inference.Core.Error.{InferenceError, internal}
use rakka_inference.Core.Tokens.{TokenChunk, Tokens, append}
use rakka_inference.Runtime.Request.{
  RequestActor, RequestMsg, RouteAnswer, answered, cancel, chunk, dispatch, end, finish, handle,
  new, refused, routed, run, send, timed_out,
}
use Prim.Native.String.{String}
use Prim.Native.String.{◌++◌ as ◌+++◌}

module _ {Json : Type 0} where
  -- The text of the chunks that were sent, the latest first in the list.
  pub text_of : List (Result (TokenChunk Json) InferenceError) → String
  text_of [] = ""
  text_of (ok c ∷ items) = text_of items +++ c.text_delta
  text_of (err e ∷ items) = text_of items

  -- Nothing is delivered yet, and the answer so far is what was sent.
  pub record IsOpen (a : RequestActor Json) : Type 0 where
    pub running : a.stopped ≡ false
    pub undelivered : a.done ≡ []
    pub can_deliver : a.has_done ≡ true
    pub so_far : a.accumulator.text ≡ text_of a.output

  -- Exactly one answer is delivered, with the text of all chunks that were sent.
  pub record IsAnswered (a : RequestActor Json) : Type 0 where
    pub over : a.stopped ≡ true
    pub cannot_deliver : a.has_done ≡ false
    pub answer : Tokens
    pub delivered : a.done ≡ answer ∷ []
    pub whole : answer.text ≡ text_of a.output

  end-IsAnswered : (a : RequestActor Json) → IsOpen a → IsAnswered (end a)
  unfolding end finish
  end-IsAnswered a o =
      rw (o.can_deliver, end, finish)
        (record {
          over = refl;
          cannot_deliver = refl;
          answer = a.accumulator;
          delivered = rw o.undelivered refl;
          whole = o.so_far;
        })

  send_err-IsOpen :
      (a : RequestActor Json) (e : InferenceError) → IsOpen a → IsOpen (send a (err e))
  unfolding text_of
  send_err-IsOpen a e o = record {
    running = o.running;
    undelivered = o.undelivered;
    can_deliver = o.can_deliver;
    so_far = o.so_far;
  }

  with_chunk : RequestActor Json → TokenChunk Json → RequestActor Json
  with_chunk a c = send (record a { accumulator = append a.accumulator c }) (ok c)

  send_ok-IsOpen :
      (a : RequestActor Json) (c : TokenChunk Json) → IsOpen a → IsOpen (with_chunk a c)
  unfolding text_of append with_chunk
  send_ok-IsOpen a c o = record {
    running = o.running;
    undelivered = o.undelivered;
    can_deliver = o.can_deliver;
    so_far = ap (λ t. t +++ c.text_delta) o.so_far;
  }

  answered-IsOpen :
      (a : RequestActor Json) (r : RouteAnswer Json)
      → IsOpen a
      → IsOpen (answered a r) ⊎ IsAnswered (answered a r)
  unfolding answered
  answered-IsOpen a routed o = inl o
  answered-IsOpen a (refused e) o = inr (end-IsAnswered (send a (err e)) (send_err-IsOpen a e o))
  answered-IsOpen a timed_out o =
      inr (end-IsAnswered (send a (err (internal "coordinator timeout"))) (send_err-IsOpen a _ o))

  by_branch :
      (b : Bool) {x y : RequestActor Json}
      → IsOpen x ⊎ IsAnswered x
      → IsOpen y ⊎ IsAnswered y
      → IsOpen (if b then x else y) ⊎ IsAnswered (if b then x else y)
  by_branch true p q = p
  by_branch false p q = q

  handle-IsOpen :
      (a : RequestActor Json) (m : RequestMsg Json)
      → IsOpen a
      → IsOpen (handle a m) ⊎ IsAnswered (handle a m)
  unfolding handle with_chunk
  handle-IsOpen a (dispatch request_id r) o = by_branch a.dispatched (inl o) (
      answered-IsOpen
        (record a {
          dispatched = true;
          accumulator = record (a.accumulator) { request_id = request_id };
        })
        r
        (record {
          running = o.running;
          undelivered = o.undelivered;
          can_deliver = o.can_deliver;
          so_far = o.so_far;
        }))
  handle-IsOpen a (chunk (ok c)) o = elim (Option-cases c.finish_reason) [
    | inl e ↦ rw (e, handle) (inl (send_ok-IsOpen a c o))
    | inr (reason, e) ↦
        rw (e, handle) (inr (end-IsAnswered (with_chunk a c) (send_ok-IsOpen a c o)))
  ]
  handle-IsOpen a (chunk (err e)) o = inr (end-IsAnswered (send a (err e)) (send_err-IsOpen a e o))
  handle-IsOpen a cancel o = inr (end-IsAnswered a o)

  run-IsOpen :
      (a : RequestActor Json) (ms : List (RequestMsg Json))
      → IsOpen a
      → IsOpen (run a ms) ⊎ IsAnswered (run a ms)
  unfolding run
  run-IsOpen a [] o = inl o
  run-IsOpen a (m ∷ ms) o = elim (handle-IsOpen a m o) [
    | inl open_still ↦ rw (open_still.running, run) (run-IsOpen (handle a m) ms open_still)
    | inr over ↦ rw (over.over, run) (inr over)
  ]

  -- Whatever messages a new request gets, either it still runs, nothing is delivered and its
  -- accumulated text is that of the chunks sent to the gateway, or it has stopped and delivered
  -- exactly one answer, whose text is that of all the chunks sent.
  pub run-delivers : (ms : List (RequestMsg Json)) → IsOpen (run new ms) ⊎ IsAnswered (run new ms)
  unfolding new text_of
  run-delivers ms =
      run-IsOpen new ms
        (record { running = refl; undelivered = refl; can_deliver = refl; so_far = refl })
