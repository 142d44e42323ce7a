-- ===== src/Remote/Engine/Capacity.antt =====
-- What the engine's two messages do to its queue, its workers and its counters.
use rakka_inference.Base.{
  Bool-cases, Option, Option-cases, Result, arith, err, inl, inr, length, none, ok, refl, some, ◌+◌,
  ◌<◌, ◌≡◌, ◌≤◌,
}
use rakka_inference.Core.Duration.{u64}
use rakka_inference.Core.Error.{InferenceError, backpressure}
use rakka_inference.Remote.Queue.{is_full}
use rakka_inference.Remote.Engine.{
  AddRequest, EngineMsg, RemoteEngineCoreActor, add, answer, enqueue, handle, mark_idle,
  position_busy, try_dispatch, worker_idle,
}
use rakka_inference.Remote.Engine.Dispatch.{
  Inv, IsSettled, Moved, busy-position_busy, busy_none, dispatch_loop-Inv, pending,
}
use rakka_inference.Remote.Queue.Bounds.{push_full, push_room}

-- What a message does to the requests that are pending and to the counters, by its reply.
pub data Accounted {Batch Sender : Type 0} (a b : RemoteEngineCoreActor Batch Sender)
    : Option (Result (Unit {0}) InferenceError) → Type 0 where
  admitted :
      length a.queue.inner < a.queue.capacity
      → pending b ≡ pending a + 1
      → b.metrics.completed ≡ a.metrics.completed
      → b.metrics.rejected_backpressure ≡ a.metrics.rejected_backpressure
      → Accounted a b (some (ok tt))
  refused :
      a.queue.capacity ≤ length a.queue.inner
      → pending b ≡ pending a
      → b.metrics.completed ≡ a.metrics.completed
      → b.metrics.rejected_backpressure ≡ u64 (a.metrics.rejected_backpressure + 1)
      → Accounted a b (some (err (backpressure "engine queue full")))
  finished :
      pending b + 1 ≡ pending a
      → b.metrics.completed ≡ u64 (a.metrics.completed + 1)
      → b.metrics.rejected_backpressure ≡ a.metrics.rejected_backpressure
      → Accounted a b none
  ignored :
      a.metrics.in_flight ≡ 0
      → pending b ≡ pending a
      → b.metrics.completed ≡ a.metrics.completed
      → b.metrics.rejected_backpressure ≡ a.metrics.rejected_backpressure
      → Accounted a b none

module _ {Batch Sender : Type 0} where
  try_dispatch-Inv :
      (a : RemoteEngineCoreActor Batch Sender)
      → Inv a
      → let b = try_dispatch a in Inv b × Moved a b × IsSettled b
  unfolding try_dispatch
  try_dispatch-Inv a v = dispatch_loop-Inv (length a.queue.inner) a v (omega arith)

  enqueue-Inv :
      (a : RemoteEngineCoreActor Batch Sender) (req : AddRequest Batch Sender)
      → Inv a
      → let (b, reply) = enqueue a req in Inv b × Accounted a b (some reply)
  unfolding enqueue answer
  enqueue-Inv a req v = elim (Bool-cases (is_full a.queue)) [
    | inl full ↦
        let met : a.queue.capacity ≤ length a.queue.inner = ground arith in
        rw (push_full a.queue _ full, enqueue)
          (
            record {
              in_flight_busy = v.in_flight_busy;
              queued_length = v.queued_length;
              bounded = v.bounded;
              capacity_fits = v.capacity_fits;
              workers_fit = v.workers_fit;
            },
            refused met refl refl refl,
          )
    | inr room ↦
        let below : length a.queue.inner < a.queue.capacity = ground arith in
        rw (push_room a.queue _ room, enqueue)
          (
            record {
              in_flight_busy = v.in_flight_busy;
              queued_length = omega arith;
              bounded = omega arith;
              capacity_fits = v.capacity_fits;
              workers_fit = v.workers_fit;
            },
            admitted below (omega arith) refl refl,
          )
  ]

  mark_idle-Inv :
      (a : RemoteEngineCoreActor Batch Sender)
      → Inv a
      → let b = mark_idle a (position_busy a.workers) in Inv b × Accounted a b none
  unfolding mark_idle
  mark_idle-Inv a v = elim (Option-cases (position_busy a.workers)) [
    | inl n ↦
        let none_busy = busy_none a.workers n in rw n (v, ignored (omega arith) refl refl refl)
    | inr (i, s) ↦
        let freed = busy-position_busy a.workers i s in
        rw s (
          record {
            in_flight_busy = omega arith;
            queued_length = v.queued_length;
            bounded = v.bounded;
            capacity_fits = v.capacity_fits;
            workers_fit = omega arith;
          },
          finished (omega arith) refl refl,
        )
  ]

  -- Dispatching afterwards moves requests only, so the account stands.
  Accounted-Moved :
      {a b c : RemoteEngineCoreActor Batch Sender}
      {reply : Option (Result (Unit {0}) InferenceError)}
      → Accounted a b reply
      → Moved b c
      → Accounted a c reply
  Accounted-Moved (admitted l p c r) m = admitted l (omega arith) (omega arith) (omega arith)
  Accounted-Moved (refused l p c r) m = refused l (omega arith) (omega arith) (omega arith)
  Accounted-Moved (finished p c r) m = finished (omega arith) (omega arith) (omega arith)
  Accounted-Moved (ignored z p c r) m = ignored z (omega arith) (omega arith) (omega arith)

  -- Every message keeps the counters true and leaves no request waiting while a worker is idle. A
  -- request is admitted exactly when the queue has room: then one request more is pending (queued or
  -- in flight); otherwise the reply is `Backpressure`, the rejections are counted (in 64 bits) and
  -- nothing else changes in number. An idle signal finishes one request when any is in flight.
  pub handle-Inv :
      (a : RemoteEngineCoreActor Batch Sender) (msg : EngineMsg Batch Sender)
      → Inv a
      → let (b, reply) = handle a msg in Inv b × IsSettled b × Accounted a b reply
  unfolding handle
  handle-Inv a (add req) v =
      let entered = enqueue-Inv a req v in
      let settled = try_dispatch-Inv (enqueue a req).0 entered.0 in
      (settled.0, settled.2, Accounted-Moved entered.1 settled.1)
  handle-Inv a worker_idle v =
      let freed = mark_idle-Inv a v in
      let settled = try_dispatch-Inv (mark_idle a (position_busy a.workers)) freed.0 in
      (settled.0, settled.2, Accounted-Moved freed.1 settled.1)
