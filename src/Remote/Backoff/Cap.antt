-- ===== src/Remote/Backoff/Cap.antt =====
-- The backoff never passes its cap, whatever the attempt, the multiplier and the jitter.
use rakka_inference.Base.{arith, ℕ, ◌<◌, ◌^◌, ◌≤◌}
use rakka_inference.Core.Float.{Float}
use rakka_inference.Core.Duration.{as_millis}
use rakka_inference.Core.Runtime.{JitterKind}
use rakka_inference.Remote.Backoff.{BackoffPolicy, compute_backoff, pseudo_random_01, with_jitter}

module _ (fl : Float) where
  open fl use {F, to_u64}

  with_jitter-le :
      (j : JitterKind) (capped : F) (attempt : ℕ)
      → to_u64 (with_jitter fl j capped attempt) ≤ to_u64 capped
  unfolding with_jitter pseudo_random_01
  with_jitter-le JitterKind.none capped attempt = omega arith
  with_jitter-le JitterKind.equal capped attempt = fl.mean_le capped _ (fl.div_unit _ (omega arith))
  with_jitter-le JitterKind.full capped attempt = fl.scale_le capped _ (fl.div_unit _ (omega arith))

  abbrev base_ms : BackoffPolicy fl → ℕ → F
  base_ms policy attempt =
      fl.mul (fl.of_ℕ (as_millis policy.initial)) (fl.powi policy.multiplier attempt)

  abbrev capped : BackoffPolicy fl → ℕ → F
  capped policy attempt =
      fl.min_float (base_ms policy attempt) (fl.of_ℕ (as_millis policy.max_delay))

  -- With a cap below 2 ^ 53 milliseconds, a backoff is at most the cap, for every attempt, every
  -- multiplier and every kind of jitter.
  pub compute_backoff-le_max :
      (policy : BackoffPolicy fl) (attempt : ℕ)
      → as_millis policy.max_delay < 2 ^ 53
      → compute_backoff fl policy attempt ≤ policy.max_delay
  unfolding compute_backoff
  compute_backoff-le_max policy attempt small =
      let cap = as_millis policy.max_delay in
      omega (
        arith,
        fl.to_u64_max _,
        with_jitter-le policy.jitter (capped policy attempt) attempt,
        fl.to_u64_mono _ _ (fl.min_le (base_ms policy attempt) cap),
        fl.to_u64_of_ℕ cap small,
      )
