-- ===== src/Runtime/AudioEngine.antt =====
-- crates/inference-runtime/src/audio_engine.rs: the engine of transcription, or of Audio2Face. The tasks
-- that it has spawned are kept as the list of their requests; the answers to the admission of requests,
-- and the errors on the outputs of those for another kind of runner, are kept as lists, latest first.
pub mod Capacity
mod Examples
use rakka_inference.Base.{
  List, Option, Result, [], erase_at, err, get_elem?, if◌then◌else◌, leb, none, ok, some, ℕ, ◌+◌,
  ◌-◌, ◌∷◌,
}
use rakka_inference.Core.Duration.{u32}
use rakka_inference.Core.Error.{InferenceError, backpressure, unsupported}
use rakka_inference.Core.Runtime.{RuntimeKind, audio2_face, speech_to_text}
use Prim.Native.String.{String}

pub record AudioEngineConfig : Type 0 where
  pub max_concurrent : ℕ  -- u32
  pub queue_capacity : ℕ

abbrev pub default_config : AudioEngineConfig
default_config = record { max_concurrent = 16; queue_capacity = 256 }

pub data RunnerCell : Type 0 where
  stt a2_f : RunnerCell

pub record AudioEngineCoreActor : Type 0 where
  pub runner : RunnerCell
  pub config : AudioEngineConfig
  pub in_flight : ℕ  -- u32
  pub tasks : List String
  pub answers : List (String × Result (Unit {0}) InferenceError)
  pub refusals : List (String × InferenceError)

pub new_stt : AudioEngineConfig → AudioEngineCoreActor
new_stt config = record {
  runner = stt;
  config = config;
  in_flight = 0;
  tasks = [];
  answers = [];
  refusals = [];
}

pub new_audio2_face : AudioEngineConfig → AudioEngineCoreActor
new_audio2_face config = record {
  runner = a2_f;
  config = config;
  in_flight = 0;
  tasks = [];
  answers = [];
  refusals = [];
}

pub try_admit : AudioEngineCoreActor → AudioEngineCoreActor × Result (Unit {0}) InferenceError
try_admit a =
    if leb a.config.max_concurrent a.in_flight
    then (a, err (backpressure "audio engine at capacity"))
    else (record a { in_flight = u32 (a.in_flight + 1) }, ok tt)

-- The admission is answered well, and the error goes to the output.
pub reject_modality_mismatch :
    AudioEngineCoreActor
    → String
    → (method : String) → (runtime : RuntimeKind) → AudioEngineCoreActor
reject_modality_mismatch a request method runtime = record a {
  answers = (request, ok tt) ∷ a.answers;
  refusals = (request, unsupported method runtime) ∷ a.refusals;
}

-- An admitted request is run by a new task.
pub spawned :
    String → AudioEngineCoreActor × Result (Unit {0}) InferenceError → AudioEngineCoreActor
spawned request (a, err e) = record a { answers = (request, err e) ∷ a.answers }
spawned request (a, ok _) = record a {
  answers = (request, ok tt) ∷ a.answers;
  tasks = request ∷ a.tasks;
}

pub data AudioEngineMsg : Type 0 where
  add_transcribe add_audio2_face : (request : String) → AudioEngineMsg

dispatched : RunnerCell → AudioEngineMsg → AudioEngineCoreActor → AudioEngineCoreActor
unfolding reject_modality_mismatch spawned try_admit
dispatched a2_f (add_transcribe request) a =
    reject_modality_mismatch a request "execute_audio" audio2_face
dispatched stt (add_transcribe request) a = spawned request (try_admit a)
dispatched stt (add_audio2_face request) a =
    reject_modality_mismatch a request "execute_audio2face" speech_to_text
dispatched a2_f (add_audio2_face request) a = spawned request (try_admit a)

pub handle : AudioEngineCoreActor → AudioEngineMsg → AudioEngineCoreActor
unfolding dispatched
handle a msg = dispatched a.runner msg a

-- The end of the task at an index, however its stream ends; one that is not there does not end.
pub end_task : AudioEngineCoreActor → ℕ → Option String → AudioEngineCoreActor
end_task a i none = a
end_task a i (some request) = record a { in_flight = a.in_flight - 1; tasks = erase_at a.tasks i }

pub data Event : Type 0 where
  message : AudioEngineMsg → Event
  task_end : ℕ → Event

pub step : AudioEngineCoreActor → Event → AudioEngineCoreActor
unfolding handle end_task
step a (message msg) = handle a msg
step a (task_end i) = end_task a i (get_elem? a.tasks i)

pub run : AudioEngineCoreActor → List Event → AudioEngineCoreActor
unfolding step
run a [] = a
run a (e ∷ es) = run (step a e) es
