-- ===== src/Runtime/EngineCore/Examples.antt =====
-- An engine for two requests at once.
use rakka_inference.Base.{
  All, List, [], arith, err, if◌then◌else◌, map, none, ok, refl, some, ℕ, ◌%◌, ◌+◌, ◌==◌, ◌∷◌, ◌≡◌,
}
use rakka_inference.Core.Error.{timeout}
use rakka_inference.Remote.Worker.{ModelRunner, Output}
use rakka_inference.Runtime.EngineCore.{LocalEngineConfig, arrival, new, run, task_end}
use rakka_inference.Runtime.EngineCore.Admission.{bound_never_refuses}
use rakka_inference.Runtime.EngineCore.Task.{run_tasks}
use rakka_inference.Runtime.EngineCore.Task.Service.{IsServed, run_tasks-IsServed}

abbrev two : LocalEngineConfig
two = record { max_concurrent = 2; queue_capacity = 16 }

bound_never_refuses_example :
    ((run (new two) (arrival ∷ arrival ∷ task_end ∷ arrival ∷ [])).0.in_flight ≡ 0)
    × All (λ reply. reply ≡ ok tt) (run (new two) (arrival ∷ arrival ∷ task_end ∷ arrival ∷ [])).1
bound_never_refuses_example =
    bound_never_refuses two (arrival ∷ arrival ∷ task_end ∷ arrival ∷ []) (omega arith)

-- Every second run of this runner fails; a run gives two chunks.
abbrev flaky : ModelRunner ℕ ℕ
flaky = record {
  State = ℕ;
  execute = λ runs batch.
      (runs + 1, if runs % 2 == 0 then ok (ok batch ∷ ok (batch + 1) ∷ []) else err (timeout 5));
}

abbrev tasks : List (ℕ × Output ℕ)
tasks =
    (7, record { sent = []; drops_after = some 1 })
    ∷ (8, record { sent = []; drops_after = none })
    ∷ (9, record { sent = []; drops_after = none })
    ∷ []

served :
    map (λ o. o.sent) (run_tasks flaky 0 tasks).1
    ≡ (ok 7 ∷ []) ∷ (err (timeout 5) ∷ []) ∷ (ok 9 ∷ ok 10 ∷ []) ∷ []
unfolding run_tasks
served = refl

run_tasks-IsServed_example : IsServed flaky 0 tasks (run_tasks flaky 0 tasks).1
run_tasks-IsServed_example = run_tasks-IsServed flaky 0 tasks
