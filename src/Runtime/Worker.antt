-- ===== src/Runtime/Worker.antt =====
-- crates/inference-runtime/src/worker.rs: the stable parent of a context. A child is the number in its
-- name; what children are told, the children that are stopped, the requests that are dropped and the
-- answers to the operator are kept as lists, latest first. Whether the actor system spawns a child is
-- part of the event.
use rakka_inference.Base.{Bool, List, Option, [], if◌then◌else◌, none, some, ℕ, ◌+◌, ◌∷◌}
use rakka_inference.Core.Duration.{u64}
use rakka_inference.Core.Error.{InferenceError, internal}
use rakka_inference.Core.Registry.{contains}
pub mod Contexts
pub mod Context
mod Examples
use Prim.Native.String.{String}

pub data ContextMsg : Type 0 where
  execute rebuild : (request : String) → ContextMsg

pub record WorkerActor : Type 0 where
  pub child : Option ℕ
  pub parent_to_child_seq : ℕ  -- u64
  pub told : List (ℕ × ContextMsg)
  pub stopped : List ℕ
  pub dropped : List String
  pub replies : List (String × InferenceError)

pub new : WorkerActor
new = record {
  child = none;
  parent_to_child_seq = 0;
  told = [];
  stopped = [];
  dropped = [];
  replies = [];
}

-- Where the spawn fails, the child stays what it was.
pub spawn_child : WorkerActor → (spawns : Bool) → WorkerActor
spawn_child w spawns =
    let seq = u64 (w.parent_to_child_seq + 1) in
    record w { parent_to_child_seq = seq; child = if spawns then some seq else w.child }

pub data Event : Type 0 where
  pre_start : (spawns : Bool) → Event
  execute_request : (request : String) → Event
  context_poisoned : (spawns : Bool) → Event
  rebuild_session : (request : String) → Event

executed : WorkerActor → String → Option ℕ → WorkerActor
executed w request none = record w { dropped = request ∷ w.dropped }
executed w request (some c) = record w { told = (c, execute request) ∷ w.told }

poisoned : WorkerActor → Option ℕ → WorkerActor
poisoned w none = w
poisoned w (some c) = record w { child = none; stopped = c ∷ w.stopped }

rebuilt : WorkerActor → String → Option ℕ → WorkerActor
rebuilt w request none = record w { replies = (request, internal "no child") ∷ w.replies }
rebuilt w request (some c) = record w { told = (c, rebuild request) ∷ w.told }

pub handle : WorkerActor → Event → WorkerActor
unfolding spawn_child executed poisoned rebuilt
handle w (pre_start spawns) = spawn_child w spawns
handle w (execute_request request) = executed w request w.child
handle w (context_poisoned spawns) = spawn_child (poisoned w w.child) spawns
handle w (rebuild_session request) = rebuilt w request w.child

pub run : WorkerActor → List Event → WorkerActor
unfolding handle
run w [] = w
run w (e ∷ es) = run (handle w e) es

pub data Directive : Type 0 where
  restart resume stop_child escalate : Directive

-- The decider of the strategy that is used where the GPU's own is not compiled in.
pub decide : String → Directive
decide text =
    if contains text "ContextPoisoned"
    then restart
    else if contains text "OutOfMemory"
    then resume
    else if contains text "Unrecoverable"
    then stop_child
    else escalate
