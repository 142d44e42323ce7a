-- ===== src/Runtime/EngineCore/Admission.antt =====
-- What the bound on concurrency does.
use rakka_inference.Base.{
  All, List, [], arith, ok, refl, replicate, suc, zero, ℕ, ◌+◌, ◌<◌, ◌∷◌, ◌≡◌,
}
use rakka_inference.Runtime.EngineCore.{
  EngineCoreActor, Event, LocalEngineConfig, add, admitted, arrival, new, run, task_end, task_ends,
  try_admit,
}

add_idle :
    (a : EngineCoreActor)
    → 0 < a.config.max_concurrent
    → a.in_flight ≡ 0
    → add a ≡ (record a { running = a.running + 1; in_flight = 0 }, ok tt)
unfolding add try_admit admitted
add_idle a p z = ground arith

run-in_flight :
    (a : EngineCoreActor) (events : List Event)
    → 0 < a.config.max_concurrent
    → a.in_flight ≡ 0
    → ((run a events).0.in_flight ≡ 0) × All (λ reply. reply ≡ ok tt) (run a events).1
unfolding run task_ends
run-in_flight a [] p z = (z, tt)
run-in_flight a (arrival ∷ events) p z =
    let ih = run-in_flight (record a { running = a.running + 1; in_flight = 0 }) events p refl in
    rw (add_idle a p z, run) (ih.0, (refl, ih.1))
run-in_flight a (task_end ∷ events) p z = run-in_flight (task_ends a) events p (omega arith)

-- With a bound on concurrency that is not 0, every arrival of every run is admitted, and no request
-- counts as in flight at the end: the slot is given back as soon as the task is spawned.
pub bound_never_refuses :
    (config : LocalEngineConfig) (events : List Event)
    → 0 < config.max_concurrent
    → ((run (new config) events).0.in_flight ≡ 0)
      × All (λ reply. reply ≡ ok tt) (run (new config) events).1
unfolding new
bound_never_refuses config events p = run-in_flight (new config) events p refl

run-running :
    (a : EngineCoreActor) (n : ℕ)
    → 0 < a.config.max_concurrent
    → a.in_flight ≡ 0
    → (run a (replicate n arrival)).0.running ≡ a.running + n
unfolding run
run-running a zero p z = omega arith
run-running a (suc n) p z =
    let ih = run-running (record a { running = a.running + 1; in_flight = 0 }) n p refl in
    rw (add_idle a p z, run) (omega (arith, ih))

-- With a bound that is not 0, any number of arrivals in a row run at once, also above the bound.
concurrency_unbounded :
    (config : LocalEngineConfig) (n : ℕ)
    → 0 < config.max_concurrent
    → (run (new config) (replicate n arrival)).0.running ≡ n
unfolding new
concurrency_unbounded config n p = omega (arith, run-running (new config) n p refl)
