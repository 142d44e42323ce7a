-- ===== src/Runtime/Placement/RoundRobin.antt =====
-- The replicas of a deployment go round the nodes that can host them.
use rakka_inference.Base.{
  Bool-cases, List, [], ap, arith, err, false, get_elem?, get_elem?-length, inl, inr, length, ok,
  refl, some, suc, sym, zero, ℕ, ◌%◌, ◌+◌, ◌<◌, ◌==◌, ◌∷◌, ◌≡◌, ◌⊎◌,
}
use rakka_inference.Core.Runtime.{TransportKind, local_cpu, local_gpu, remote_network, transport_of}
use rakka_inference.Core.Deployment.{Deployment, effective_runtime}
use rakka_inference.Runtime.Placement.{
  NodeAssignment, PlacementConstraints, PlacementError, assign, no_cpu_nodes, no_egress_nodes,
  no_gpu_nodes, on_nodes, place, place_by, range, wanted_gpus,
}
use Prim.Native.String.{String}
use native.Mathlib.Nat.{add-zero}

-- The replicas from `i` on, `n` of them, in order, each on the node that is its index modulo the
-- number of nodes.
pub record IsRoundRobin (nodes : List String) (gpus : List ℕ) (i n : ℕ) (all : List NodeAssignment)
    : Type 0 where
  pub every_replica : length all ≡ n
  pub in_turn :
      (k : ℕ)
      → k < n
      → (node : String) × (get_elem? nodes ((i + k) % length nodes) ≡ some node)
        × (get_elem? all k ≡ some (record { replica_index = i + k; node = node; gpus = gpus }))

add_one_suc : (i k : ℕ) → i + 1 + k ≡ i + suc k
add_one_suc i k = omega arith

in_turn_cons :
    (nodes : List String) (gpus : List ℕ) (i n : ℕ) (node : String) (rest : List NodeAssignment)
    → get_elem? nodes (i % length nodes) ≡ some node
    → IsRoundRobin nodes gpus (i + 1) n rest
    → (k : ℕ) → k < suc n
    → (node' : String) × (get_elem? nodes ((i + k) % length nodes) ≡ some node')
      × (get_elem? (record { replica_index = i; node = node; gpus = gpus } ∷ rest) k
          ≡ some (record { replica_index = i + k; node = node'; gpus = gpus }))
in_turn_cons nodes gpus i n node rest found r zero l =
    (node, rw (add-zero i) found, rw (add-zero i) refl)
in_turn_cons nodes gpus i n node rest found r (suc k) l =
    rw (sym (add_one_suc i k)) (r.in_turn k (omega arith))

assign_step :
    (nodes : List String) (gpus : List ℕ) (i n : ℕ) (node : String) (rest : List NodeAssignment)
    → get_elem? nodes (i % length nodes) ≡ some node
    → assign nodes gpus (i + 1) n ≡ some rest
    → assign nodes gpus i (suc n)
      ≡ some (record { replica_index = i; node = node; gpus = gpus } ∷ rest)
unfolding assign
assign_step nodes gpus i n node rest found e = rw (found, e, assign) refl

assign-IsRoundRobin :
    (nodes : List String) (gpus : List ℕ) (i n : ℕ)
    → 0 < length nodes
    → (all : List NodeAssignment) × (assign nodes gpus i n ≡ some all)
      × IsRoundRobin nodes gpus i n all
unfolding assign
assign-IsRoundRobin nodes gpus i zero p =
    ([], refl, record { every_replica = refl; in_turn = λ k l. elim l [ ] })
assign-IsRoundRobin nodes gpus i (suc n) p =
    let (node, found) = get_elem?-length nodes (i % length nodes) (omega arith) in
    let (rest, e, r) = assign-IsRoundRobin nodes gpus (i + 1) n p in
    (
      record { replica_index = i; node = node; gpus = gpus } ∷ rest,
      assign_step nodes gpus i n node rest found e,
      record {
        every_replica = ap suc r.every_replica;
        in_turn = in_turn_cons nodes gpus i n node rest found r;
      },
    )

-- Where the replicas of a deployment can go, and what is missing when nothing can host them.
abbrev pub pool_of : TransportKind → PlacementConstraints → List String
pool_of local_gpu c = c.gpu_nodes
pool_of local_cpu c = c.cpu_nodes
pool_of (remote_network _) c = c.egress_nodes
pool_of TransportKind.unknown_transport c = []

abbrev pub missing_error : TransportKind → PlacementError
missing_error local_gpu = no_gpu_nodes
missing_error local_cpu = no_cpu_nodes
missing_error (remote_network provider) = no_egress_nodes provider
missing_error TransportKind.unknown_transport = PlacementError.unknown_transport

module _ {Json F : Type 0} where
  abbrev pub gpus_of : TransportKind → Deployment Json F → List ℕ
  gpus_of local_gpu d = range 0 (wanted_gpus d)
  gpus_of _ d = []

  on_nodes_ok :
      (d : Deployment Json F) (nodes : List String) (gpus : List ℕ) (missing : PlacementError)
      (all : List NodeAssignment)
      → (length nodes == 0) ≡ false
      → assign nodes gpus 0 d.replicas ≡ some all
      → on_nodes d nodes gpus missing
        ≡ some (ok (record { deployment = d.name; assignments = all }))
  unfolding on_nodes
  on_nodes_ok d nodes gpus missing all nz e = rw (nz, e, on_nodes) refl

  on_nodes-lem :
      (d : Deployment Json F) (nodes : List String) (gpus : List ℕ) (missing : PlacementError)
      → ((length nodes ≡ 0) × (on_nodes d nodes gpus missing ≡ some (err missing)))
        ⊎ ((0 < length nodes)
            × ((all : List NodeAssignment) × (on_nodes d nodes gpus missing
                  ≡ some (ok (record { deployment = d.name; assignments = all })))
                × IsRoundRobin nodes gpus 0 d.replicas all))
  unfolding on_nodes
  on_nodes-lem d nodes gpus missing = elim (Bool-cases (length nodes == 0)) [
    | inl z ↦ inl (ground arith, rw (z, on_nodes) refl)
    | inr nz ↦
        let found : 0 < length nodes = ground arith in
        let (all, e, r) = assign-IsRoundRobin nodes gpus 0 d.replicas found in
        inr (found, (all, on_nodes_ok d nodes gpus missing all nz e, r))
  ]

  place_by-lem :
      (t : TransportKind) (d : Deployment Json F) (c : PlacementConstraints)
      → ((length (pool_of t c) ≡ 0) × (place_by t d c ≡ some (err (missing_error t))))
        ⊎ ((0 < length (pool_of t c))
            × ((all : List NodeAssignment) × (place_by t d c
                  ≡ some (ok (record { deployment = d.name; assignments = all })))
                × IsRoundRobin (pool_of t c) (gpus_of t d) 0 d.replicas all))
  unfolding place_by
  place_by-lem local_gpu d c = on_nodes-lem d c.gpu_nodes _ _
  place_by-lem local_cpu d c = on_nodes-lem d c.cpu_nodes _ _
  place_by-lem (remote_network provider) d c = on_nodes-lem d c.egress_nodes _ _
  place_by-lem TransportKind.unknown_transport d c = inl (refl, refl)

  -- The placement never panics. It fails exactly when the pool of nodes that the deployment's
  -- transport needs is empty (for an unknown transport it always is), with the error of that
  -- transport; otherwise it assigns every replica, in order, and the nodes of the pool in turn.
  pub place-IsRoundRobin :
      (d : Deployment Json F) (c : PlacementConstraints)
      → let t = transport_of (effective_runtime d) in
        ((length (pool_of t c) ≡ 0) × (place d c ≡ some (err (missing_error t))))
        ⊎ ((0 < length (pool_of t c))
            × ((all : List NodeAssignment) × (place d c
                  ≡ some (ok (record { deployment = d.name; assignments = all })))
                × IsRoundRobin (pool_of t c) (gpus_of t d) 0 d.replicas all))
  unfolding place
  place-IsRoundRobin d c = place_by-lem (transport_of (effective_runtime d)) d c
