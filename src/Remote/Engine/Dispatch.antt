-- ===== src/Remote/Engine/Dispatch.antt =====
-- The pool of workers, and what the dispatch loop keeps.
use rakka_inference.Base.{
  List, Option-cases, [], arith, false, if◌then◌else◌, inl, inr, length, none, refl, some, suc,
  true, zero, ℕ, ◌+◌, ◌<◌, ◌^◌, ◌∷◌, ◌≡◌, ◌≤◌, ◌⊎◌,
}
use rakka_inference.Remote.Queue.{PriorityRequest, RequestQueue, is_empty, pop}
use rakka_inference.Remote.Queue.Order.{heap_pop-Pops, pop-some}
use rakka_inference.Remote.Engine.{
  RemoteEngineCoreActor, WorkerEntry, dispatch_idle, dispatch_loop, dispatch_popped, hand_out,
  position_busy, position_idle, set_idle,
}

abbrev pub busy : List WorkerEntry → ℕ
busy [] = 0
busy (w ∷ ws) = (if w.idle then 0 else 1) + busy ws

busy-le_length : (ws : List WorkerEntry) → busy ws ≤ length ws
busy-le_length [] = omega arith
busy-le_length (w ∷ ws) = ground (arith, busy-le_length ws)

busy-position_idle :
    (ws : List WorkerEntry) (idx : ℕ)
    → position_idle ws ≡ some idx
    → (busy (set_idle ws idx false) ≡ busy ws + 1) × (length (set_idle ws idx false) ≡ length ws)
unfolding position_idle set_idle
busy-position_idle [] idx e = cc
busy-position_idle (w ∷ ws) idx e = elim (Option-cases (position_idle ws)) [
  | inl n ↦ ground arith
  | inr (j, s) ↦ ground (arith, busy-position_idle ws j s)
]

pub busy-position_busy :
    (ws : List WorkerEntry) (idx : ℕ)
    → position_busy ws ≡ some idx
    → (busy (set_idle ws idx true) + 1 ≡ busy ws) × (length (set_idle ws idx true) ≡ length ws)
unfolding position_busy set_idle
busy-position_busy [] idx e = cc
busy-position_busy (w ∷ ws) idx e = elim (Option-cases (position_busy ws)) [
  | inl n ↦ ground arith
  | inr (j, s) ↦ ground (arith, busy-position_busy ws j s)
]

pub busy_none : (ws : List WorkerEntry) → position_busy ws ≡ none → busy ws ≡ 0
unfolding position_busy
busy_none [] e = refl
busy_none (w ∷ ws) e = elim (Option-cases (position_busy ws)) [
  | inl n ↦ ground (arith, busy_none ws n)
  | inr (j, s) ↦ ground arith
]

module _ {Batch Sender : Type 0} where
  -- The counters tell the truth: what is queued is what the queue holds, within its capacity, and
  -- what is in flight is the number of busy workers. (Sizes are below 2 ^ 64.)
  pub record Inv (a : RemoteEngineCoreActor Batch Sender) : Type 0 where
    pub in_flight_busy : a.metrics.in_flight ≡ busy a.workers
    pub queued_length : a.metrics.queued ≡ length a.queue.inner
    pub bounded : length a.queue.inner ≤ a.queue.capacity
    pub capacity_fits : a.queue.capacity < 2 ^ 64
    pub workers_fit : length a.workers < 2 ^ 64

  -- No request waits while a worker is idle.
  abbrev pub IsSettled : RemoteEngineCoreActor Batch Sender → Type 0
  IsSettled a = (length a.queue.inner ≡ 0) ⊎ (position_idle a.workers ≡ none)

  -- Requests that are queued or in flight.
  abbrev pub pending : RemoteEngineCoreActor Batch Sender → ℕ
  pending a = a.metrics.queued + a.metrics.in_flight

  -- From `a` to `b` requests have only moved from the queue to workers.
  pub record Moved (a b : RemoteEngineCoreActor Batch Sender) : Type 0 where
    pub same_pending : pending b ≡ pending a
    pub same_completed : b.metrics.completed ≡ a.metrics.completed
    pub same_rejected : b.metrics.rejected_backpressure ≡ a.metrics.rejected_backpressure
    pub same_capacity : b.queue.capacity ≡ a.queue.capacity

  still : (a : RemoteEngineCoreActor Batch Sender) → Moved a a
  still a = record {
    same_pending = refl;
    same_completed = refl;
    same_rejected = refl;
    same_capacity = refl;
  }

  moved : {a b c : RemoteEngineCoreActor Batch Sender} → Moved a b → Moved b c → Moved a c
  moved m n = omega arith

  module _ (a : RemoteEngineCoreActor Batch Sender) (idx : ℕ) (req : PriorityRequest Batch Sender)
      (rest : List (PriorityRequest Batch Sender)) where
    hand_out-Inv :
        Inv a
        → position_idle a.workers ≡ some idx
        → length a.queue.inner ≡ suc (length rest)
        → let b = hand_out a idx (record (a.queue) { inner = rest }) req in
          Inv b × Moved a b × (length b.queue.inner ≡ length rest)
    unfolding hand_out
    hand_out-Inv v e l =
        let counted = busy-position_idle a.workers idx e in
        let least = busy-le_length (set_idle a.workers idx false) in ground (arith, counted, least)

  loop_empty :
      (fuel : ℕ) (a : RemoteEngineCoreActor Batch Sender)
      → is_empty a.queue ≡ true
      → dispatch_loop (suc fuel) a ≡ a
  unfolding dispatch_loop
  loop_empty fuel a e = rw (e, dispatch_loop) refl

  loop_busy :
      (fuel : ℕ) (a : RemoteEngineCoreActor Batch Sender)
      → is_empty a.queue ≡ false
      → position_idle a.workers ≡ none
      → dispatch_loop (suc fuel) a ≡ a
  unfolding dispatch_loop dispatch_idle
  loop_busy fuel a e n = rw (e, n, dispatch_loop) refl

  loop_round :
      (fuel : ℕ) (a : RemoteEngineCoreActor Batch Sender) (idx : ℕ)
      (req : PriorityRequest Batch Sender) (rest : RequestQueue Batch Sender)
      → is_empty a.queue ≡ false
      → position_idle a.workers ≡ some idx
      → pop a.queue ≡ (rest, some req)
      → dispatch_loop (suc fuel) a ≡ dispatch_loop fuel (hand_out a idx rest req)
  unfolding dispatch_loop dispatch_idle dispatch_popped
  loop_round fuel a idx req rest e i p = rw (e, i, p, dispatch_loop) refl

  -- The loop keeps the counters true, moves requests only, and ends with no request waiting for an
  -- idle worker, if its fuel is at least the length of the queue.
  pub dispatch_loop-Inv :
      (fuel : ℕ) (a : RemoteEngineCoreActor Batch Sender)
      → Inv a
      → length a.queue.inner ≤ fuel
      → let b = dispatch_loop fuel a in Inv b × Moved a b × IsSettled b
  unfolding dispatch_loop
  dispatch_loop-Inv zero a v l = ground arith
  dispatch_loop-Inv (suc fuel) a v l = elim (heap_pop-Pops a.queue.inner) [
    | inl (empty, e) ↦ rw (loop_empty fuel a (rw empty refl)) (v, still a, inl (rw empty refl))
    | inr (req, rest, e, p, b, size) ↦
        let filled : is_empty a.queue ≡ false = ground arith in
        elim (Option-cases (position_idle a.workers)) [
          | inl n ↦ rw (loop_busy fuel a filled n) (v, still a, inr n)
          | inr (idx, i) ↦
              let step = hand_out-Inv a idx req rest v i size in
              let ih =
                dispatch_loop-Inv fuel (hand_out a idx (record (a.queue) { inner = rest }) req)
                  step.0 (omega (arith, step.2, size, l)) in
              rw (loop_round fuel a idx req _ filled i (pop-some a.queue req rest e))
                (ih.0, moved step.1 ih.1, ih.2)
        ]
  ]
