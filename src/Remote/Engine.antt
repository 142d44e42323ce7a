-- ===== src/Remote/Engine.antt =====
-- crates/inference-remote-core/src/engine.rs: the orchestrator of one replica. A worker's address is
-- its index at start, and what the engine tells its workers is kept as a list, latest first.
pub mod Dispatch
pub mod Capacity
mod Examples
use mathlib.Core.Option
use Prim.Native.String.{String}
use rakka_inference.Remote.Queue
use rakka_inference.Base.{
  Bool, List, Option, Result, [], err, false, get_elem?, if◌then◌else◌, length, map, none, ok, some,
  suc, true, zero, ℕ, ◌++◌, ◌+◌, ◌-◌, ◌∷◌,
}
use rakka_inference.Core.Duration.{u64}
use rakka_inference.Core.Deployment.{CapacityPolicy}
use rakka_inference.Core.Error.{InferenceError, backpressure}
use rakka_inference.Remote.Queue.{Priority, PriorityRequest, RequestQueue, is_empty, pop, push}

pub record RemoteEngineConfig : Type 0 where
  pub queue_capacity : ℕ
  pub worker_count : ℕ
  pub on_capacity_exhausted : CapacityPolicy

-- Counters of 64 bits.
pub record EngineMetrics : Type 0 where
  pub queued : ℕ
  pub in_flight : ℕ
  pub completed : ℕ
  pub rejected_backpressure : ℕ

pub record WorkerEntry : Type 0 where
  pub addr : ℕ
  pub idle : Bool

-- `workers.iter().position(|w| w.idle)`.
pub position_idle : List WorkerEntry → Option ℕ
position_idle [] = none
position_idle (w ∷ ws) =
    let later = Option.map suc (position_idle ws) in if w.idle then some 0 else later

-- `self.workers[idx].idle = idle`.
pub set_idle : List WorkerEntry → ℕ → Bool → List WorkerEntry
set_idle [] idx b = []
set_idle (w ∷ ws) zero b = record w { idle = b } ∷ ws
set_idle (w ∷ ws) (suc idx) b = w ∷ set_idle ws idx b

-- `self.workers.iter_mut().find(|w| !w.idle)`, by its position.
pub position_busy : List WorkerEntry → Option ℕ
position_busy [] = none
position_busy (w ∷ ws) =
    let later = Option.map suc (position_busy ws) in if w.idle then later else some 0

-- `self.workers[idx].addr`.
abbrev addr_at : List WorkerEntry → ℕ → ℕ
addr_at ws idx = elim (get_elem? ws idx) [ none ↦ idx | some w ↦ w.addr ]

module _ (Batch Sender : Type 0) where
  pub record RemoteEngineCoreActor : Type 0 where
    pub queue : RequestQueue Batch Sender
    pub workers : List WorkerEntry
    pub metrics : EngineMetrics
    pub has_factory : Bool
    pub worker_count : ℕ
    pub told : List (ℕ × PriorityRequest Batch Sender)

  pub record AddRequest : Type 0 where
    pub priority : Priority
    pub batch : Batch
    pub output : Sender

  pub data EngineMsg : Type 0 where
    add : AddRequest → EngineMsg
    worker_idle : EngineMsg

-- The workers whose spawn succeeds, in order.
spawn_from : ℕ → ℕ → (ℕ → Bool) → List WorkerEntry
spawn_from i zero spawns = []
spawn_from i (suc n) spawns =
    let later = spawn_from (i + 1) n spawns in
    if spawns i then record { addr = i; idle = true } ∷ later else later

module _ {Batch Sender : Type 0} where
  pub new : RemoteEngineConfig → RemoteEngineCoreActor Batch Sender
  new config = record {
    queue = Queue.new config.queue_capacity;
    workers = [];
    metrics = record { queued = 0; in_flight = 0; completed = 0; rejected_backpressure = 0 };
    has_factory = true;
    worker_count = config.worker_count;
    told = [];
  }

  pub pre_start :
      (ℕ → Bool) → RemoteEngineCoreActor Batch Sender → RemoteEngineCoreActor Batch Sender
  unfolding spawn_from
  pre_start spawns a =
      if a.has_factory
      then record a {
        has_factory = false;
        workers = a.workers ++ spawn_from 0 a.worker_count spawns;
      }
      else a

  -- The answer to what the queue says of a push.
  pub answer :
      RemoteEngineCoreActor Batch Sender
      → RequestQueue Batch Sender × Result (Unit {0}) (PriorityRequest Batch Sender)
      → RemoteEngineCoreActor Batch Sender × Result (Unit {0}) InferenceError
  answer a (queue, ok _) = (
    record a {
      queue = queue;
      metrics = record (a.metrics) { queued = u64 (a.metrics.queued + 1) };
    },
    ok tt,
  )
  answer a (queue, err _) = (
    record a {
      queue = queue;
      metrics = record (a.metrics) {
        rejected_backpressure = u64 (a.metrics.rejected_backpressure + 1);
      };
    },
    err (backpressure "engine queue full"),
  )

  pub enqueue :
      RemoteEngineCoreActor Batch Sender
      → AddRequest Batch Sender
      → RemoteEngineCoreActor Batch Sender × Result (Unit {0}) InferenceError
  unfolding answer
  enqueue a req =
      let request : PriorityRequest Batch Sender = record {
        priority = req.priority;
        arrival_seq = 0;
        batch = req.batch;
        output = req.output;
      } in
      answer a (push a.queue request)

  -- One round of the dispatch loop, with the index of an idle worker and the request taken out.
  pub hand_out :
      RemoteEngineCoreActor Batch Sender
      → ℕ
      → RequestQueue Batch Sender
      → PriorityRequest Batch Sender
      → RemoteEngineCoreActor Batch Sender
  hand_out a idx queue req = record a {
    queue = queue;
    workers = set_idle a.workers idx false;
    told = (addr_at a.workers idx, req) ∷ a.told;
    metrics = record (a.metrics) {
      queued = a.metrics.queued - 1;
      in_flight = u64 (a.metrics.in_flight + 1);
    };
  }

  dispatch_popped :
      (RemoteEngineCoreActor Batch Sender → RemoteEngineCoreActor Batch Sender)
      → RemoteEngineCoreActor Batch Sender
      → ℕ
      → RequestQueue Batch Sender × Option (PriorityRequest Batch Sender)
      → RemoteEngineCoreActor Batch Sender
  unfolding hand_out
  dispatch_popped again a idx (queue, none) = record a { queue = queue }
  dispatch_popped again a idx (queue, some req) = again (hand_out a idx queue req)

  dispatch_idle :
      (RemoteEngineCoreActor Batch Sender → RemoteEngineCoreActor Batch Sender)
      → RemoteEngineCoreActor Batch Sender
      → Option ℕ
      → RemoteEngineCoreActor Batch Sender
  unfolding dispatch_popped
  dispatch_idle again a none = a
  dispatch_idle again a (some idx) = dispatch_popped again a idx (pop a.queue)

  -- The loop of `try_dispatch`, for at most as many rounds as the fuel.
  pub dispatch_loop : ℕ → RemoteEngineCoreActor Batch Sender → RemoteEngineCoreActor Batch Sender
  unfolding dispatch_idle
  dispatch_loop zero a = a
  dispatch_loop (suc fuel) a = elim (is_empty a.queue) [
    | true ↦ a
    | false ↦ dispatch_idle (dispatch_loop fuel) a (position_idle a.workers)
  ]

  -- Each round takes a request out of the queue.
  pub try_dispatch : RemoteEngineCoreActor Batch Sender → RemoteEngineCoreActor Batch Sender
  unfolding dispatch_loop
  try_dispatch a = dispatch_loop (length a.queue.inner) a

  -- The first worker that is not idle is marked idle.
  pub mark_idle : RemoteEngineCoreActor Batch Sender → Option ℕ → RemoteEngineCoreActor Batch Sender
  mark_idle a none = a
  mark_idle a (some idx) = record a {
    workers = set_idle a.workers idx true;
    metrics = record (a.metrics) {
      in_flight = a.metrics.in_flight - 1;
      completed = u64 (a.metrics.completed + 1);
    };
  }

  pub handle :
      RemoteEngineCoreActor Batch Sender
      → EngineMsg Batch Sender
      → RemoteEngineCoreActor Batch Sender × Option (Result (Unit {0}) InferenceError)
  unfolding enqueue try_dispatch mark_idle
  handle a (add req) = let (a', admission) = enqueue a req in (try_dispatch a', some admission)
  handle a worker_idle = (try_dispatch (mark_idle a (position_busy a.workers)), none)
