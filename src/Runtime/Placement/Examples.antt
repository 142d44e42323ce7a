-- ===== src/Runtime/Placement/Examples.antt =====
-- Three replicas on two nodes.
use rakka_inference.Base.{List, [], err, length, none, ok, some, true, ℕ, ◌<◌, ◌∷◌, ◌≡◌, ◌⊎◌}
use rakka_inference.Core.Runtime.{transport_of}
use rakka_inference.Core.Deployment.{CapacityPolicy, Deployment, effective_runtime}
use rakka_inference.Runtime.Placement.{NodeAssignment, PlacementConstraints, place}
use rakka_inference.Runtime.Placement.RoundRobin.{
  IsRoundRobin, gpus_of, missing_error, place-IsRoundRobin, pool_of,
}
use Prim.Native.String.{String}

abbrev llama : Deployment String ℕ
llama = record {
  name = "llama";
  model = "meta-llama/Llama-3.1-70B-Instruct";
  runtime = none;
  runtime_config = none;
  gpus = some 2;
  replicas = 3;
  serving = record { max_concurrent = 32; on_capacity_exhausted = CapacityPolicy.queue };
  budget = none;
  idempotent = true;
}

abbrev two_nodes : PlacementConstraints
two_nodes = record {
  gpu_nodes = "a" ∷ "b" ∷ [];
  cpu_nodes = [];
  egress_nodes = [];
  egress_preference = [];
}

place-IsRoundRobin_example :
    let t = transport_of (effective_runtime llama) in
    ((length (pool_of t two_nodes) ≡ 0) × (place llama two_nodes ≡ some (err (missing_error t))))
    ⊎ ((0 < length (pool_of t two_nodes))
        × ((all : List NodeAssignment) × (place llama two_nodes
              ≡ some (ok (record { deployment = "llama"; assignments = all })))
            × IsRoundRobin (pool_of t two_nodes) (gpus_of t llama) 0 3 all))
place-IsRoundRobin_example = place-IsRoundRobin llama two_nodes
