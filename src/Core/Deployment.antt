-- ===== src/Core/Deployment.antt =====
-- crates/inference-core/src/deployment.rs: what an operator declares about a deployment.
use rakka_inference.Core.Registry.{infer_runtime}
use rakka_inference.Base.{Bool, Option, Result, err, if◌then◌else◌, none, ok, some, ℕ, ◌==◌}
use rakka_inference.Core.Runtime.{JitterKind, RuntimeConfig, RuntimeKind, runtime_kind}
use Prim.Native.String.{String, len}

pub data CapacityPolicy : Type 0 where
  reject queue fallback : CapacityPolicy

pub record Serving : Type 0 where
  pub max_concurrent : ℕ
  pub on_capacity_exhausted : CapacityPolicy

pub record RateLimits : Type 0 where
  pub requests_per_minute : Option ℕ
  pub tokens_per_minute : Option ℕ
  pub concurrent_requests : Option ℕ
  pub strict : Bool

-- Durations in nanoseconds; the multiplier is a float, of the type `F`.
pub record RetryPolicy (F : Type 0) : Type 0 where
  pub max_retries : ℕ
  pub initial_backoff : ℕ
  pub max_backoff : ℕ
  pub backoff_multiplier : F
  pub jitter : JitterKind
  pub respect_retry_after : Bool

pub data BudgetAction : Type 0 where
  reject warn throttle : BudgetAction

pub record Budget (F : Type 0) : Type 0 where
  pub max_spend_per_hour_usd : Option F
  pub max_spend_per_day_usd : Option F
  pub on_exceeded : BudgetAction

-- With the types of the runtimes' JSON bodies and of floats.
pub record Deployment (Json F : Type 0) : Type 0 where
  pub name : String
  pub model : String
  pub runtime : Option RuntimeKind
  pub runtime_config : Option (RuntimeConfig Json)
  pub gpus : Option ℕ
  pub replicas : ℕ
  pub serving : Serving
  pub budget : Option (Budget F)
  pub idempotent : Bool

pub data DeploymentValidationError : Type 0 where
  empty_name empty_model zero_replicas : DeploymentValidationError
  rate_limit_too_high : String → DeploymentValidationError

module _ {Json F : Type 0} where
  unfoldable pub effective_runtime : Deployment Json F → RuntimeKind
  effective_runtime d =
      let inferred = infer_runtime d.model in
      let configured : RuntimeKind = elim d.runtime_config [
        | none ↦ inferred
        | some c ↦ runtime_kind c
      ] in
      elim d.runtime [ none ↦ configured | some kind ↦ kind ]

  unfoldable pub validate : Deployment Json F → Result (Unit {0}) DeploymentValidationError
  validate d =
      if len d.name == 0
      then err empty_name
      else if len d.model == 0
      then err empty_model
      else if d.replicas == 0
      then err zero_replicas
      else ok tt
