-- ===== src/Runtime/Manager/Examples.antt =====
-- A catalogue with one deployment.
use rakka_inference.Runtime.Manager.Refinement.{by_name, replay, run, run-replay, view}
use rakka_inference.Base.{List, [], err, none, ok, refl, some, true, ℕ, ◌∷◌, ◌≡◌}
use rakka_inference.Runtime.Manager.{
  DeploymentManagerActor, DeploymentManagerMsg, apply, done, found, get, handle, new, pending,
  remove,
}
use rakka_inference.Core.Error.{internal}
use rakka_inference.Core.Deployment.{CapacityPolicy, Deployment, validate}
use Prim.Native.String.{String}
use rakka_inference.Base.Maps

abbrev llama : Deployment String ℕ
llama = record {
  name = "llama";
  model = "meta-llama/Llama-3.1-70B-Instruct";
  runtime = none;
  runtime_config = none;
  gpus = some 2;
  replicas = 3;
  serving = record { max_concurrent = 32; on_capacity_exhausted = CapacityPolicy.queue };
  budget = none;
  idempotent = true;
}

abbrev empty : DeploymentManagerActor String ℕ
unfolding new
empty = new

-- A deployment with no replica is refused.
no_replica_refused :
    (handle empty (apply (record llama { replicas = 0 }))).1
    ≡ done (err (internal "deployment must have at least one replica"))
unfolding handle validate
no_replica_refused = refl

abbrev messages : List (DeploymentManagerMsg String ℕ)
messages = apply llama ∷ get "llama" ∷ remove "llama" ∷ get "llama" ∷ []

answered :
    (run empty messages).1
    ≡ some (done (ok tt))
      ∷ some (found (some (record { deployment = llama; state = pending })))
      ∷ some (done (ok tt))
      ∷ some (found none)
      ∷ []
unfolding run handle validate by_name new Maps.get Maps.insert Maps.remove
answered = refl

run-replay_example :
    (view (run empty messages).0 ≡ (replay (view empty) messages).0)
    × ((run empty messages).1 ≡ (replay (view empty) messages).1)
run-replay_example = run-replay empty messages
