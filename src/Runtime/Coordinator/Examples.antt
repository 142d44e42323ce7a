-- ===== src/Runtime/Coordinator/Examples.antt =====
-- Two engines with loads that are natural numbers.
use rakka_inference.Base.{[], arith, get_elem?, ok, refl, some, ℕ, ◌==◌, ◌∷◌, ◌≡◌}
use rakka_inference.Base.Maps.{get, insert}
use rakka_inference.Runtime.Coordinator.{
  CoordinatorState, Engines, RouteTarget, deregister, min_by, pick, register, report_load,
}
use rakka_inference.Runtime.Coordinator.Routing.{IsLeast, Ordered, pick-IsLeast}
use Prim.Native.Nat.{compare}

abbrev numbered : Engines
numbered = record {
  Engine = ℕ;
  ActorPath = ℕ;
  Load = ℕ;
  path = λ e. e;
  same = λ a b. a == b;
  partial_cmp = λ a b. some (compare a b);
}

abbrev two : CoordinatorState numbered
two =
    register (register (record { routes = [] }) "llama" (record { engine = 1; load = 7 })) "llama"
      (record { engine = 2; load = 3 })

numbered-Ordered : Ordered numbered (λ _. Unit)
numbered-Ordered = record {
  irrefl = λ a. ground arith;
  asym = λ a b g. ground arith;
  trans = λ a b c x y z g h. ground arith;
}

routed : pick two "llama" ≡ ok (record { engine = 2; load = 3 })
unfolding pick register insert get min_by
routed = refl

rerouted : pick (deregister two "llama" 2) "llama" ≡ ok (record { engine = 1; load = 7 })
unfolding pick register insert get min_by deregister
rerouted = refl

reported : pick (report_load two "llama" 2 5) "llama" ≡ ok (record { engine = 2; load = 5 })
unfolding pick register insert get min_by report_load
reported = refl

abbrev second : RouteTarget numbered
second = record { engine = 2; load = 5 }

pick-IsLeast_example :
    (m : RouteTarget numbered) × (pick two "llama" ≡ ok m)
    × IsLeast (λ _. Unit) m (record { engine = 1; load = 7 } ∷ record { engine = 2; load = 3 } ∷ [])
    × ((i : ℕ) × (get_elem?
            (record { engine = 1; load = 7 } ∷ record { engine = 2; load = 3 } ∷ [])
            i
          ≡ some m))
unfolding insert get register
pick-IsLeast_example =
    pick-IsLeast (λ _. Unit) numbered-Ordered two "llama" (record { engine = 1; load = 7 })
      (record { engine = 2; load = 3 } ∷ []) refl (tt, (tt, tt))
