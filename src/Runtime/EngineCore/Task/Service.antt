-- ===== src/Runtime/EngineCore/Task/Service.antt =====
-- What the requests of an engine get, however its tasks get the lock.
use rakka_inference.Base.{List, Result, [], err, ok, ◌∷◌}
use rakka_inference.Core.Error.{InferenceError}
use rakka_inference.Remote.Worker.{ModelRunner, Output}
use rakka_inference.Runtime.Streams.{items_of}
use rakka_inference.Runtime.Streams.Delivery.{Gains, pump-Gains, send-Gains}
use rakka_inference.Runtime.EngineCore.Task.{answered, run_task, run_tasks}

module _ {Batch Chunk : Type 0} (M : ModelRunner Batch Chunk) where
  -- Each request in turn is run once, by the runner that the ones before it left, and its output gains
  -- what that run gave.
  pub data IsServed : M.State → List (Batch × Output Chunk) → List (Output Chunk) → Type 0 where
    all_served : (runner : M.State) → IsServed runner [] []
    next_served :
        (runner : M.State) (batch : Batch) (o o' : Output Chunk)
        (tasks : List (Batch × Output Chunk)) (outputs : List (Output Chunk))
        → Gains o o' (items_of (M.execute runner batch).1)
        → IsServed (M.execute runner batch).0 tasks outputs
        → IsServed runner ((batch, o) ∷ tasks) (o' ∷ outputs)

  answered-Gains :
      (o : Output Chunk) (result : Result (List (Result Chunk InferenceError)) InferenceError)
      → Gains o (answered M o result) (items_of result)
  unfolding answered items_of
  answered-Gains o (ok items) = pump-Gains o items
  answered-Gains o (err e) = send-Gains o (err e)

  -- The requests of an engine are run once each, in the order in which they get the lock: an output
  -- gains every item of its stream, errors too, or the one error of the runner, in order and up to
  -- where its receiver is dropped, which stops no other request.
  pub run_tasks-IsServed :
      (runner : M.State) (tasks : List (Batch × Output Chunk))
      → IsServed runner tasks (run_tasks M runner tasks).1
  unfolding run_tasks run_task
  run_tasks-IsServed runner [] = all_served runner
  run_tasks-IsServed runner ((batch, o) ∷ tasks) =
      let (runner', result) = M.execute runner batch in
      next_served runner batch o (answered M o result) tasks (run_tasks M runner' tasks).1
        (answered-Gains o result) (run_tasks-IsServed runner' tasks)
