-- ===== src/Remote/Backoff.antt =====
-- crates/inference-remote-core/src/backoff.rs. Durations in nanoseconds, floats as a parameter.
pub mod Cap
use rakka_inference.Base.{none, ℕ, ◌%◌, ◌*◌}
use rakka_inference.Core.Float.{Float}
use rakka_inference.Core.Duration.{as_millis, from_millis, u32}
use rakka_inference.Core.Runtime.{JitterKind, equal, full}
use rakka_inference.Core.Deployment.{RetryPolicy}

module _ (fl : Float) where
  open fl use {F, of_ℕ, half, zero_float, add, mul, div, powi, min_float, max_float, to_u64}

  pub record BackoffPolicy : Type 0 where
    pub initial : ℕ
    pub max_delay : ℕ
    pub multiplier : F
    pub jitter : JitterKind

  -- `impl From<&RetryPolicy> for BackoffPolicy`.
  unfoldable pub from_retry_policy : RetryPolicy F → BackoffPolicy
  from_retry_policy p = record {
    initial = p.initial_backoff;
    max_delay = p.max_backoff;
    multiplier = p.backoff_multiplier;
    jitter = p.jitter;
  }

  pub pseudo_random_01 : ℕ → F
  pseudo_random_01 seed = div (of_ℕ (u32 (seed * 2_654_435_761) % 10_000)) (of_ℕ 10_000)

  with_jitter : JitterKind → F → ℕ → F
  unfolding pseudo_random_01
  with_jitter JitterKind.none capped attempt = capped
  with_jitter JitterKind.equal capped attempt =
      add (mul capped half) (mul (mul capped (pseudo_random_01 attempt)) half)
  with_jitter JitterKind.full capped attempt = mul capped (pseudo_random_01 attempt)

  -- `attempt` counts from 0.
  unfoldable pub compute_backoff : BackoffPolicy → ℕ → ℕ
  unfolding with_jitter
  compute_backoff policy attempt =
      let base_ms = mul (of_ℕ (as_millis policy.initial)) (powi policy.multiplier attempt) in
      let capped = min_float base_ms (of_ℕ (as_millis policy.max_delay)) in
      from_millis (to_u64 (max_float (with_jitter policy.jitter capped attempt) zero_float))
