-- ===== src/Runtime/Placement.antt =====
-- crates/inference-runtime/src/placement.rs: the nodes of a deployment's replicas. An index out of
-- bounds, which panics in the source, is `none`.
pub mod RoundRobin
mod Examples
use rakka_inference.Base.{
  List, Option, Result, [], err, get_elem?, if◌then◌else◌, length, map, none, ok, some, suc, zero,
  ℕ, ◌%◌, ◌+◌, ◌==◌, ◌∷◌,
}
use rakka_inference.Core.Runtime.{
  ProviderKind, TransportKind, local_cpu, local_gpu, remote_network, transport_of,
}
use rakka_inference.Core.Deployment.{Deployment, effective_runtime}
use Prim.Native.String.{String}
use mathlib.Core.Option

pub record PlacementConstraints : Type 0 where
  pub gpu_nodes : List String
  pub cpu_nodes : List String
  pub egress_nodes : List String
  pub egress_preference : List ((ProviderKind × String) × List String)

pub record NodeAssignment : Type 0 where
  pub replica_index : ℕ
  pub node : String
  pub gpus : List ℕ

pub record PlacementResult : Type 0 where
  pub deployment : String
  pub assignments : List NodeAssignment

pub data PlacementError : Type 0 where
  no_gpu_nodes no_cpu_nodes : PlacementError
  no_egress_nodes : ProviderKind → PlacementError
  not_enough_gpus : (requested : ℕ) → PlacementError
  unknown_transport : PlacementError

-- `i..i + n`.
abbrev pub range : ℕ → ℕ → List ℕ
range i zero = []
range i (suc n) = i ∷ range (i + 1) n

-- The loop over the replicas from `i` on.
pub assign : List String → List ℕ → ℕ → ℕ → Option (List NodeAssignment)
assign nodes gpus i zero = some []
assign nodes gpus i (suc n) =
    let later = assign nodes gpus (i + 1) n in
    elim (get_elem? nodes (i % length nodes)) [
      | none ↦ none
      | some node ↦
          Option.map (λ rest. record { replica_index = i; node = node; gpus = gpus } ∷ rest) later
    ]

module _ {Json F : Type 0} where
  abbrev pub on_nodes :
      Deployment Json F
      → List String
      → List ℕ
      → PlacementError
      → Option (Result PlacementResult PlacementError)
  unfolding assign
  on_nodes d nodes gpus missing =
      let assigned = assign nodes gpus 0 d.replicas in
      if length nodes == 0
      then some (err missing)
      else Option.map (λ all. ok (record { deployment = d.name; assignments = all })) assigned

  abbrev pub wanted_gpus : Deployment Json F → ℕ
  wanted_gpus d = elim d.gpus [ none ↦ 1 | some n ↦ n ]

  pub place_by :
      TransportKind
      → Deployment Json F
      → PlacementConstraints
      → Option (Result PlacementResult PlacementError)
  unfolding on_nodes
  place_by local_gpu d c = on_nodes d c.gpu_nodes (range 0 (wanted_gpus d)) no_gpu_nodes
  place_by (remote_network provider) d c = on_nodes d c.egress_nodes [] (no_egress_nodes provider)
  place_by local_cpu d c = on_nodes d c.cpu_nodes [] no_cpu_nodes
  place_by TransportKind.unknown_transport d c = some (err PlacementError.unknown_transport)

  pub place :
      Deployment Json F → PlacementConstraints → Option (Result PlacementResult PlacementError)
  unfolding place_by effective_runtime transport_of
  place d c = place_by (transport_of (effective_runtime d)) d c
