-- ===== src/Runtime/Worker/Context/Service.antt =====
-- What the tasks of a context come to.
use Prim.Native.String.{String}
use rakka_inference.Base.{
  Bool, Bool-cases, List, Result, [], ap, err, false, inl, inr, ok, refl, sym, true, ◌↔◌, ◌∙◌, ◌∷◌,
  ◌≡◌,
}
use rakka_inference.Core.Error.{InferenceError, cuda_context_poisoned}
use rakka_inference.Remote.Worker.{ModelRunner, Output, send}
use rakka_inference.Runtime.Streams.{items_of, pump}
use rakka_inference.Runtime.Streams.Delivery.{Gains, pump-Gains, send-Gains}
use rakka_inference.Runtime.Worker.Context.{
  ContextTask, TaskEnd, execute_task, executed, is_context_poisoned, rebuild_task, replied,
  run_task, run_tasks, streamed,
}

poisoned_text :
    (e : InferenceError)
    → is_context_poisoned e ≡ true
    → (text : String) × (e ≡ cuda_context_poisoned text)
unfolding is_context_poisoned
poisoned_text (cuda_context_poisoned text) p = (text, refl)
poisoned_text e p = absurd cc

poisons : {Chunk : Type 0} → Result (List (Result Chunk InferenceError)) InferenceError → Bool
poisons (ok items) = false
poisons (err e) = is_context_poisoned e

module _ {Batch Chunk Cause : Type 0} (M : ModelRunner Batch Chunk)
    (rebuild_session : M.State → Cause → M.State × Result (Unit {0}) InferenceError) where
  -- The task of an execution has delivered what the runner gave, and panics exactly when the runner
  -- has reported a poisoned context.
  pub record IsExecuted (runner : M.State) (batch : Batch) (o o' : Output Chunk) (panics : Bool)
      : Type 0 where
    pub delivered : Gains o o' (items_of (M.execute runner batch).1)
    pub poisoned :
        (panics ≡ true)
        ↔ ((text : String) × ((M.execute runner batch).1 ≡ err (cuda_context_poisoned text)))

  -- Each task in turn is done once, by the runner that the ones before it left.
  pub data IsAnswered
      : M.State → List (ContextTask Batch Chunk Cause) → List (TaskEnd Chunk) → Type 0 where
    all_answered : (runner : M.State) → IsAnswered runner [] []
    next_executed :
        (runner : M.State) (batch : Batch) (o o' : Output Chunk) (panics : Bool)
        (tasks : List (ContextTask Batch Chunk Cause)) (ends : List (TaskEnd Chunk))
        → IsExecuted runner batch o o' panics
        → IsAnswered (M.execute runner batch).0 tasks ends
        → IsAnswered runner (execute_task batch o ∷ tasks) (streamed o' panics ∷ ends)
    next_rebuilt :
        (runner : M.State) (cause : Cause) (tasks : List (ContextTask Batch Chunk Cause))
        (ends : List (TaskEnd Chunk))
        → IsAnswered (rebuild_session runner cause).0 tasks ends
        → IsAnswered runner
            (rebuild_task cause ∷ tasks)
            (replied (rebuild_session runner cause).1 ∷ ends)

  -- The same, of the result that the task is given.
  abbrev IsEnded :
      Output Chunk → Result (List (Result Chunk InferenceError)) InferenceError → Type 0
  IsEnded o result =
      (o' : Output Chunk) × (panics : Bool) × (executed M rebuild_session o result
        ≡ streamed o' panics)
      × Gains o o' (items_of result)
      × ((panics ≡ true) ↔ ((text : String) × (result ≡ err (cuda_context_poisoned text))))

  executed-IsEnded :
      (o : Output Chunk) (result : Result (List (Result Chunk InferenceError)) InferenceError)
      → IsEnded o result
  unfolding executed items_of poisons is_context_poisoned
  executed-IsEnded o (ok items) =
      (pump o items, false, refl, pump-Gains o items, (λ h. cc, λ (text, e). cc))
  executed-IsEnded o (err e) =
      let o' = (send o (err e)).0 in
      elim (Bool-cases (is_context_poisoned e)) [
        | inl p ↦
            let (text, same) = poisoned_text e p in
            (o', true, rw p refl, send-Gains o (err e), (λ h. (text, ap err same), λ h. refl))
        | inr p ↦ (
          o',
          false,
          rw p refl,
          send-Gains o (err e),
          (λ h. cc, λ (text, same). sym p ∙ ap poisons same),
        )
      ]

  -- The tasks of a context are done once each, in the order in which they get the runner: the output
  -- of an execution gains every item of its stream, errors too, or the one error of the runner, in
  -- order and up to where its receiver is dropped; its task panics exactly when that error is a
  -- poisoned context, and no panic keeps the later tasks from the runner.
  pub run_tasks-IsAnswered :
      (runner : M.State) (tasks : List (ContextTask Batch Chunk Cause))
      → IsAnswered runner tasks (run_tasks M rebuild_session runner tasks).1
  unfolding run_tasks run_task
  run_tasks-IsAnswered runner [] = all_answered runner
  run_tasks-IsAnswered runner (execute_task batch o ∷ tasks) =
      let (runner', result) = M.execute runner batch in
      let (o', panics, e, delivered, poisoned) = executed-IsEnded o result in
      rw e (
        next_executed runner batch o o' panics tasks (run_tasks M rebuild_session runner' tasks).1
          (record { delivered = delivered; poisoned = poisoned })
          (run_tasks-IsAnswered runner' tasks))
  run_tasks-IsAnswered runner (rebuild_task cause ∷ tasks) =
      let runner' = (rebuild_session runner cause).0 in
      next_rebuilt runner cause tasks (run_tasks M rebuild_session runner' tasks).1
        (run_tasks-IsAnswered runner' tasks)
