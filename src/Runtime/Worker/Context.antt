-- ===== src/Runtime/Worker/Context.antt =====
-- crates/inference-runtime/src/worker.rs: the restartable child that owns a runner. Its messages spawn
-- tasks, which are taken in the order in which they get the runner's lock; the rebuilding of a runner
-- is a parameter. A panic ends its task alone.
pub mod Service
use rakka_inference.Base.{Bool, List, Result, [], err, false, if◌then◌else◌, ok, true, ◌∷◌}
use rakka_inference.Core.Error.{InferenceError, cuda_context_poisoned}
use rakka_inference.Remote.Worker.{ModelRunner, Output, send}
use rakka_inference.Runtime.Streams.{pump}

pub data ContextTask (Batch Chunk Cause : Type 0) : Type 0 where
  execute_task : (batch : Batch) (output : Output Chunk) → ContextTask Batch Chunk Cause
  rebuild_task : (cause : Cause) → ContextTask Batch Chunk Cause

-- How a task ends: with the output of its request and whether it panics, or with a reply.
pub data TaskEnd (Chunk : Type 0) : Type 0 where
  streamed : (output : Output Chunk) (panics : Bool) → TaskEnd Chunk
  replied : (result : Result (Unit {0}) InferenceError) → TaskEnd Chunk

pub is_context_poisoned : InferenceError → Bool
is_context_poisoned (cuda_context_poisoned text) = true
is_context_poisoned e = false

module _ {Batch Chunk Cause : Type 0} (M : ModelRunner Batch Chunk)
    (rebuild_session : M.State → Cause → M.State × Result (Unit {0}) InferenceError) where
  pub executed :
      Output Chunk → Result (List (Result Chunk InferenceError)) InferenceError → TaskEnd Chunk
  unfolding pump send is_context_poisoned
  executed o (ok items) = streamed (pump o items) false
  executed o (err e) =
      let o' = (send o (err e)).0 in
      if is_context_poisoned e then streamed o' true else streamed o' false

  pub run_task : M.State → ContextTask Batch Chunk Cause → M.State × TaskEnd Chunk
  unfolding executed
  run_task runner (execute_task batch o) =
      let (runner', result) = M.execute runner batch in (runner', executed o result)
  run_task runner (rebuild_task cause) =
      let (runner', result) = rebuild_session runner cause in (runner', replied result)

  unfoldable pub run_tasks :
      M.State → List (ContextTask Batch Chunk Cause) → M.State × List (TaskEnd Chunk)
  unfolding run_task
  run_tasks runner [] = (runner, [])
  run_tasks runner (task ∷ tasks) =
      let (runner', end) = run_task runner task in
      let (last, ends) = run_tasks runner' tasks in (last, end ∷ ends)
