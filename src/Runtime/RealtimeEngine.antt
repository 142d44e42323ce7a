-- ===== src/Runtime/RealtimeEngine.antt =====
-- crates/inference-runtime/src/realtime_engine.rs: the engine of live sessions. The tasks that it has
-- spawned are kept as a list, each waiting for the runner to open its session or relaying its output;
-- the answers to the callers are kept as a list, latest first. The capacities at which tokio's channel
-- panics are a parameter; what becomes of an actor whose handler panics is its system's, and here it
-- handles no more requests.
pub mod Capacity
mod Examples
use rakka_inference.Base.{
  Bool, List, Option, Result, [], erase_at, err, false, get_elem?, if◌then◌else◌, leb, ok, set,
  some, true, ℕ, ◌+◌, ◌-◌, ◌∷◌,
}
use rakka_inference.Core.Duration.{u32}
use rakka_inference.Core.Error.{InferenceError, backpressure}

pub record RealtimeEngineConfig : Type 0 where
  pub max_concurrent : ℕ  -- u32
  pub queue_capacity : ℕ
  pub outbound_relay_capacity : ℕ

pub data Task : Type 0 where
  opening relaying : Task

pub record RealtimeEngineCoreActor : Type 0 where
  pub config : RealtimeEngineConfig
  pub in_flight : ℕ  -- u32
  pub tasks : List Task
  pub answers : List (Result (Unit {0}) InferenceError)
  pub panicked : Bool

pub new : RealtimeEngineConfig → RealtimeEngineCoreActor
new config = record { config = config; in_flight = 0; tasks = []; answers = []; panicked = false }

unfoldable pub try_admit :
    RealtimeEngineCoreActor → RealtimeEngineCoreActor × Result (Unit {0}) InferenceError
try_admit a =
    if leb a.config.max_concurrent a.in_flight
    then (a, err (backpressure "realtime engine at capacity"))
    else (record a { in_flight = u32 (a.in_flight + 1) }, ok tt)

-- The relay of a session, `mpsc::channel(relay_cap)`, and the new task that opens it.
relayed : (panics : ℕ → Bool) → RealtimeEngineCoreActor → RealtimeEngineCoreActor
relayed panics a =
    if panics a.config.outbound_relay_capacity
    then record a { panicked = true }
    else record a { tasks = opening ∷ a.tasks }

-- An admitted session gets its relay and its task; a refusal is answered at once.
pub spawned :
    (panics : ℕ → Bool)
    → RealtimeEngineCoreActor × Result (Unit {0}) InferenceError
    → RealtimeEngineCoreActor
unfolding relayed
spawned panics (a, err e) = record a { answers = err e ∷ a.answers }
spawned panics (a, ok _) = relayed panics a

pub open_session : (panics : ℕ → Bool) → RealtimeEngineCoreActor → RealtimeEngineCoreActor
unfolding spawned try_admit
open_session panics a = spawned panics (try_admit a)

-- The end of a task, which gives its slot back.
pub end_task : RealtimeEngineCoreActor → ℕ → RealtimeEngineCoreActor
end_task a i = record a { in_flight = a.in_flight - 1; tasks = erase_at a.tasks i }

-- The runner's answer to a task that opens a session.
pub opened :
    RealtimeEngineCoreActor → ℕ → Result (Unit {0}) InferenceError → RealtimeEngineCoreActor
unfolding end_task
opened a i (ok _) = record a { tasks = set a.tasks i relaying; answers = ok tt ∷ a.answers }
opened a i (err e) = end_task (record a { answers = err e ∷ a.answers }) i

pub data Event : Type 0 where
  arrival : Event
  -- The runner has answered the task at this index.
  answer : ℕ → Result (Unit {0}) InferenceError → Event
  -- The output of the session at this index is closed by either side.
  close : ℕ → Event

-- An event of a task that is not there, or not in that phase, does not happen.
pub on_answer :
    RealtimeEngineCoreActor
    → ℕ
    → Result (Unit {0}) InferenceError
    → Option Task
    → RealtimeEngineCoreActor
unfolding opened
on_answer a i r (some opening) = opened a i r
on_answer a i r _ = a

pub on_close : RealtimeEngineCoreActor → ℕ → Option Task → RealtimeEngineCoreActor
unfolding end_task
on_close a i (some relaying) = end_task a i
on_close a i _ = a

pub step : (panics : ℕ → Bool) → RealtimeEngineCoreActor → Event → RealtimeEngineCoreActor
unfolding open_session on_answer on_close
step panics a arrival = if a.panicked then a else open_session panics a
step panics a (answer i r) = on_answer a i r (get_elem? a.tasks i)
step panics a (close i) = on_close a i (get_elem? a.tasks i)

pub run : (panics : ℕ → Bool) → RealtimeEngineCoreActor → List Event → RealtimeEngineCoreActor
unfolding step
run panics a [] = a
run panics a (e ∷ es) = run panics (step panics a e) es
