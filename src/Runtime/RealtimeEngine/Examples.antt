-- ===== src/Runtime/RealtimeEngine/Examples.antt =====
-- An engine for two sessions.
use rakka_inference.Base.{
  Bool, List, [], arith, err, false, length, ok, refl, true, ℕ, ◌+◌, ◌<◌, ◌==◌, ◌↔◌, ◌∷◌, ◌≡◌, ◌≤◌,
  ◌⊎◌,
}
use rakka_inference.Core.Error.{backpressure}
use rakka_inference.Runtime.RealtimeEngine.{
  Event, RealtimeEngineConfig, answer, arrival, close, new, run, try_admit,
}
use rakka_inference.Runtime.RealtimeEngine.Capacity.{run_within_bound}

abbrev two : RealtimeEngineConfig
two = record { max_concurrent = 2; queue_capacity = 64; outbound_relay_capacity = 64 }

abbrev day : List Event
day = arrival ∷ answer 0 (ok tt) ∷ arrival ∷ arrival ∷ close 1 ∷ arrival ∷ []

-- `mpsc::channel` panics where there is no room for a message.
abbrev no_room : ℕ → Bool
no_room capacity = capacity == 0

-- The third session is refused; the slot of the one that ends is used again.
third_is_refused :
    (run no_room (new two) day).answers
    ≡ err (backpressure "realtime engine at capacity") ∷ ok tt ∷ []
unfolding run new
third_is_refused = refl

-- Without room in the relay the first request takes a slot, and gets neither a task nor an answer.
abbrev no_relay : RealtimeEngineConfig
no_relay = record { max_concurrent = 2; queue_capacity = 64; outbound_relay_capacity = 0 }

slot_is_lost :
    run no_room (new no_relay) (arrival ∷ [])
    ≡ record { config = no_relay; in_flight = 1; tasks = []; answers = []; panicked = true }
unfolding run new
slot_is_lost = refl

run_within_bound_example :
    let a = run no_room (new two) day in
    (length a.tasks ≤ 2)
    × (((a.panicked ≡ false)
          × (a.in_flight ≡ length a.tasks)
          × (((try_admit a).1 ≡ ok tt) ↔ (length a.tasks < 2)))
        ⊎ ((a.panicked ≡ true) × (no_room 64 ≡ true) × (a.in_flight ≡ length a.tasks + 1)))
run_within_bound_example = run_within_bound no_room two day (omega arith)
