-- ===== src/Remote/Retry.antt =====
-- crates/inference-remote-core/src/retry.rs: whether a failed attempt is made again, and when.
pub mod Decision
use rakka_inference.Base.{Bool, Option, false, if◌then◌else◌, leb, none, not, some, true, ℕ}
use rakka_inference.Core.Float.{Float}
use rakka_inference.Core.Deployment.{RetryPolicy}
use rakka_inference.Core.Error.{InferenceError, is_retryable, rate_limited}
use rakka_inference.Remote.Backoff.{BackoffPolicy, compute_backoff, from_retry_policy}

pub data RetryDecision : Type 0 where
  retry : (after : ℕ) → RetryDecision
  give_up : RetryDecision

-- What the server asked for with a 429.
abbrev pub server_retry_after : InferenceError → Option ℕ
server_retry_after (rate_limited provider retry_after) = retry_after
server_retry_after _ = none

module _ (fl : Float) where
  pub record RetryEngine : Type 0 where
    pub policy : RetryPolicy fl.F
    pub backoff : BackoffPolicy fl
    pub idempotent : Bool

  unfoldable pub new : RetryPolicy fl.F → Bool → RetryEngine
  new policy idempotent = record {
    policy = policy;
    backoff = from_retry_policy fl policy;
    idempotent = idempotent;
  }

  pub delay : RetryEngine → ℕ → Bool → Option ℕ → ℕ
  delay e attempt true (some server_ra) = server_ra
  delay e attempt true none = compute_backoff fl e.backoff attempt
  delay e attempt false _ = compute_backoff fl e.backoff attempt

  -- `attempt`, counted from 0, is the one that just failed.
  unfoldable pub decide : RetryEngine → ℕ → InferenceError → RetryDecision
  unfolding delay is_retryable
  decide e attempt error =
      if not e.idempotent
      then give_up
      else if leb e.policy.max_retries attempt
      then give_up
      else if not (is_retryable error)
      then give_up
      else retry (delay e attempt e.policy.respect_retry_after (server_retry_after error))
