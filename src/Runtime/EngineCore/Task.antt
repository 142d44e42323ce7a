-- ===== src/Runtime/EngineCore/Task.antt =====
-- crates/inference-runtime/src/engine_core.rs: what a spawned task does. A task holds the runner's lock
-- to its end, so that the tasks are taken in the order in which they get the lock.
pub mod Service
use rakka_inference.Base.{List, Result, [], err, ok, ◌∷◌}
use rakka_inference.Core.Error.{InferenceError}
use rakka_inference.Remote.Worker.{ModelRunner, Output, send}
use rakka_inference.Runtime.Streams.{pump}

module _ {Batch Chunk : Type 0} (M : ModelRunner Batch Chunk) where
  pub answered :
      Output Chunk → Result (List (Result Chunk InferenceError)) InferenceError → Output Chunk
  unfolding pump send
  answered o (ok items) = pump o items
  answered o (err e) = (send o (err e)).0

  -- One task: the runner after it, and the output of the request.
  pub run_task : M.State → Batch → Output Chunk → M.State × Output Chunk
  unfolding answered
  run_task runner batch o =
      let (runner', result) = M.execute runner batch in (runner', answered o result)

  unfoldable pub run_tasks : M.State → List (Batch × Output Chunk) → M.State × List (Output Chunk)
  unfolding run_task
  run_tasks runner [] = (runner, [])
  run_tasks runner ((batch, o) ∷ tasks) =
      let (runner', o') = run_task runner batch o in
      let (last, outputs) = run_tasks runner' tasks in (last, o' ∷ outputs)
