-- ===== src/Runtime/EngineCore.antt =====
-- crates/inference-runtime/src/engine_core.rs: the engine of a local replica. Its state is kept with the
-- number of the tasks it has spawned that still run.
pub mod Admission
pub mod Task
mod Examples
use rakka_inference.Base.{List, Result, [], err, if◌then◌else◌, leb, ok, ℕ, ◌+◌, ◌-◌, ◌∷◌}
use rakka_inference.Core.Duration.{u32}
use rakka_inference.Core.Error.{InferenceError, backpressure}
use rakka_inference.Core.Float.{Float}

pub record LocalEngineConfig : Type 0 where
  pub max_concurrent : ℕ  -- u32
  pub queue_capacity : ℕ

pub record EngineCoreActor : Type 0 where
  pub config : LocalEngineConfig
  pub in_flight : ℕ  -- u32
  pub running : ℕ

pub new : LocalEngineConfig → EngineCoreActor
new config = record { config = config; in_flight = 0; running = 0 }

pub try_admit : EngineCoreActor → EngineCoreActor × Result (Unit {0}) InferenceError
try_admit a =
    if leb a.config.max_concurrent a.in_flight
    then (a, err (backpressure "engine at capacity"))
    else (record a { in_flight = u32 (a.in_flight + 1) }, ok tt)

abbrev release : EngineCoreActor → EngineCoreActor
release a = record a { in_flight = a.in_flight - 1 }

-- The handler's answer to an admission; the task is spawned before the release.
pub admitted :
    EngineCoreActor × Result (Unit {0}) InferenceError
    → EngineCoreActor × Result (Unit {0}) InferenceError
admitted (a, err e) = (a, err e)
admitted (a, ok _) = (release (record a { running = a.running + 1 }), ok tt)

pub add : EngineCoreActor → EngineCoreActor × Result (Unit {0}) InferenceError
unfolding try_admit admitted
add a = admitted (try_admit a)

-- The end of a spawned task.
pub task_ends : EngineCoreActor → EngineCoreActor
task_ends a = release (record a { running = a.running - 1 })

-- The answer to `GetLoad`.
pub load : (fl : Float) → EngineCoreActor → fl.F
load fl a = fl.div (fl.of_ℕ a.in_flight) (fl.of_ℕ a.config.max_concurrent)

pub data Event : Type 0 where
  arrival task_end : Event

-- The replies to the arrivals of a run, and the state after it.
pub run : EngineCoreActor → List Event → EngineCoreActor × List (Result (Unit {0}) InferenceError)
unfolding add task_ends
run a [] = (a, [])
run a (arrival ∷ events) =
    let (a', reply) = add a in let (last, replies) = run a' events in (last, reply ∷ replies)
run a (task_end ∷ events) = run (task_ends a) events
