-- ===== src/Runtime/Worker/Examples.antt =====
-- A poisoned context.
use Prim.Native.String.{String}
use rakka_inference.Base.{
  List, Result, [], arith, err, false, if◌then◌else◌, none, ok, refl, true, ℕ, ◌+◌, ◌==◌, ◌∷◌, ◌≡◌,
}
use rakka_inference.Core.Error.{InferenceError, cuda_context_poisoned, timeout}
use rakka_inference.Remote.Worker.{ModelRunner, Output}
use rakka_inference.Runtime.Worker.{
  Event, context_poisoned, decide, execute, execute_request, handle, new, pre_start, restart, run,
}
use rakka_inference.Runtime.Worker.Contexts.{IsPassedOn, next_request}
use rakka_inference.Runtime.Worker.Context.{
  ContextTask, execute_task, rebuild_task, replied, run_tasks, streamed,
}
use rakka_inference.Runtime.Worker.Context.Service.{IsAnswered, run_tasks-IsAnswered}

abbrev events : List Event
events =
    pre_start true
    ∷ execute_request "a"
    ∷ context_poisoned true
    ∷ execute_request "b"
    ∷ context_poisoned false
    ∷ execute_request "c"
    ∷ []

-- Where the second context cannot be spawned, the third request is dropped.
told_requests : (run new events).told ≡ (2, execute "b") ∷ (1, execute "a") ∷ []
unfolding run new
told_requests = refl

poisoned_restarts : decide "ContextPoisoned: sticky error" ≡ restart
unfolding decide
poisoned_restarts = refl

next_request_example :
    IsPassedOn (run new events) "d" (handle (run new events) (execute_request "d"))
next_request_example = next_request events "d" (omega arith)

-- The second run of this runner poisons the context, until it is rebuilt.
abbrev poisoned_once : ModelRunner ℕ ℕ
poisoned_once = record {
  State = ℕ;
  execute = λ runs batch. (
    runs + 1,
    if runs == 1
        then err (cuda_context_poisoned "sticky")
        else ok (ok batch ∷ err (timeout 5) ∷ []),
  );
}

abbrev rebuilds : ℕ → String → ℕ × Result (Unit {0}) InferenceError
rebuilds runs cause = (0, ok tt)

abbrev unsent : Output ℕ
unsent = record { sent = []; drops_after = none }

abbrev tasks : List (ContextTask ℕ ℕ String)
tasks =
    execute_task 7 unsent
    ∷ execute_task 8 unsent
    ∷ rebuild_task "operator"
    ∷ execute_task 9 unsent
    ∷ []

answered :
    (run_tasks poisoned_once rebuilds 0 tasks).1
    ≡ streamed (record { sent = ok 7 ∷ err (timeout 5) ∷ []; drops_after = none }) false
      ∷ streamed
          (record { sent = err (cuda_context_poisoned "sticky") ∷ []; drops_after = none })
          true
      ∷ replied (ok tt)
      ∷ streamed (record { sent = ok 9 ∷ err (timeout 5) ∷ []; drops_after = none }) false
      ∷ []
unfolding run_tasks
answered = refl

run_tasks-IsAnswered_example :
    IsAnswered poisoned_once rebuilds 0 tasks (run_tasks poisoned_once rebuilds 0 tasks).1
run_tasks-IsAnswered_example = run_tasks-IsAnswered poisoned_once rebuilds 0 tasks
