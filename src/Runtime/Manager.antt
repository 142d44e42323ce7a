-- ===== src/Runtime/Manager.antt =====
-- crates/inference-runtime/src/deployment_manager.rs: the catalogue of the deployments.
pub mod Catalogue
pub mod Refinement
mod Examples
use rakka_inference.Base.{List, Option, Result, [], err, map, not, ok}
use rakka_inference.Core.Error.{InferenceError, internal}
use rakka_inference.Core.Deployment.{
  Deployment, DeploymentValidationError, empty_model, empty_name, rate_limit_too_high, validate,
  zero_replicas,
}
use Prim.Native.String.{String}
use rakka_inference.Base.Maps
use Prim.Native.String.{◌++◌ as ◌+++◌}

pub data DeploymentState : Type 0 where
  pending serving draining failed : DeploymentState

module _ (Json F : Type 0) where
  pub record DeploymentRecord : Type 0 where
    pub deployment : Deployment Json F
    pub state : DeploymentState

  pub record DeploymentManagerActor : Type 0 where
    pub records : List (String × DeploymentRecord)

  pub data DeploymentManagerMsg : Type 0 where
    apply : Deployment Json F → DeploymentManagerMsg
    remove : (name : String) → DeploymentManagerMsg
    list : DeploymentManagerMsg
    get : (name : String) → DeploymentManagerMsg

  -- What a message is answered with.
  pub data Reply : Type 0 where
    done : Result (Unit {0}) InferenceError → Reply
    listed : List DeploymentRecord → Reply
    found : Option DeploymentRecord → Reply

-- The errors' texts.
abbrev to_string : DeploymentValidationError → String
to_string empty_name = "deployment name must not be empty"
to_string empty_model = "deployment model must not be empty"
to_string zero_replicas = "deployment must have at least one replica"
to_string (rate_limit_too_high tier) = "rate limits exceed known provider tier: " +++ tier

module _ {Json F : Type 0} where
  pub new : DeploymentManagerActor Json F
  new = record { records = [] }

  -- The handling of `Apply`, with the answer of the validation.
  unfoldable pub applied :
      DeploymentManagerActor Json F
      → Deployment Json F
      → Result (Unit {0}) DeploymentValidationError
      → DeploymentManagerActor Json F × Result (Unit {0}) InferenceError
  applied a d (ok _) = (
    record { records = Maps.insert a.records d.name (record { deployment = d; state = pending }) },
    ok tt,
  )
  applied a d (err e) = (a, err (internal (to_string e)))

  unfoldable pub handle :
      DeploymentManagerActor Json F
      → DeploymentManagerMsg Json F
      → DeploymentManagerActor Json F × Reply Json F
  unfolding applied
  handle a (apply d) = let (a', res) = applied a d (validate d) in (a', done res)
  handle a (remove name) = (record { records = Maps.remove a.records name }, done (ok tt))
  handle a list = (a, listed (map (λ e. e.1) a.records))
  handle a (get name) = (a, found (Maps.get a.records name))
