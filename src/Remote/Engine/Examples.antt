-- ===== src/Remote/Engine/Examples.antt =====
-- An engine with two workers and a queue of one request.
use rakka_inference.Base.{List, [], arith, err, refl, some, true, ℕ, ◌∷◌, ◌≡◌}
use rakka_inference.Core.Error.{backpressure}
use rakka_inference.Core.Deployment.{CapacityPolicy}
use rakka_inference.Remote.Queue.{new, normal, pop, push}
use rakka_inference.Remote.Engine.{
  EngineMsg, RemoteEngineConfig, RemoteEngineCoreActor, add, handle, position_idle, pre_start,
  set_idle,
}
use rakka_inference.Remote.Engine.Dispatch.{Inv, IsSettled}
use rakka_inference.Remote.Engine.Capacity.{Accounted, handle-Inv}
use Prim.Native.String.{String}
use rakka_inference.Remote.Engine

abbrev small : RemoteEngineConfig
small = record {
  queue_capacity = 1;
  worker_count = 2;
  on_capacity_exhausted = CapacityPolicy.queue;
}

abbrev started : RemoteEngineCoreActor String ℕ
unfolding Engine.new pre_start
started = pre_start (λ i. true) (Engine.new small)

abbrev ask : String → EngineMsg String ℕ
ask text = add (record { priority = normal; batch = text; output = 7 })

abbrev after : List (EngineMsg String ℕ) → RemoteEngineCoreActor String ℕ
unfolding handle
after [] = started
after (m ∷ ms) = (handle (after ms) m).0

-- Two requests run, one waits and the fourth is refused.
fourth_is_refused :
    (handle (after (ask "c" ∷ ask "b" ∷ ask "a" ∷ [])) (ask "d")).1
    ≡ some (err (backpressure "engine queue full"))
unfolding handle after Engine.Queue.push started Engine.Queue.new Engine.position_idle
    Engine.Queue.pop Engine.set_idle
fourth_is_refused = refl

started-Inv : Inv started
unfolding started Engine.Queue.new
started-Inv = record {
  in_flight_busy = refl;
  queued_length = refl;
  bounded = omega arith;
  capacity_fits = omega arith;
  workers_fit = omega arith;
}

handle-Inv_example :
    Inv (handle started (ask "a")).0
    × IsSettled (handle started (ask "a")).0
    × Accounted started (handle started (ask "a")).0 (handle started (ask "a")).1
handle-Inv_example = handle-Inv started (ask "a") started-Inv
