-- ===== src/Remote/Retry/Decision.antt =====
-- Exactly when a retry is made.
use rakka_inference.Base.{
  Bool, Bool-cases, Option-cases, ap, arith, false, inl, inr, none, refl, some, subst, sym, true, ℕ,
  ◌<◌, ◌^◌, ◌↔◌, ◌∙◌, ◌≡◌, ◌≤◌, ◌⊎◌,
}
use rakka_inference.Core.Float.{Float}
use rakka_inference.Core.Error.{InferenceError, is_retryable, rate_limited}
use rakka_inference.Remote.Retry.{
  RetryEngine, decide, delay, give_up, new, retry, server_retry_after,
}
use rakka_inference.Core.Runtime.{ProviderKind}
use rakka_inference.Core.Deployment.{RetryPolicy}
use rakka_inference.Remote.Backoff.{BackoffPolicy, compute_backoff, from_retry_policy}
use rakka_inference.Remote.Backoff.Cap.{compute_backoff-le_max}
use rakka_inference.Core.Duration.{as_millis}

module _ (fl : Float) where
  -- What the server asked for, where the policy respects it: the wait of a 429 that names one.
  abbrev IsAsked : RetryPolicy fl.F → InferenceError → ℕ → Type 0
  IsAsked policy error after =
      (policy.respect_retry_after ≡ true)
      × ((provider : ProviderKind) × (error ≡ rate_limited provider (some after)))

  -- The wait before the next attempt: the server's, or the policy's backoff where the server's is not
  -- respected or there is none.
  abbrev IsWait : RetryPolicy fl.F → BackoffPolicy fl → ℕ → InferenceError → ℕ → Type 0
  IsWait policy backoff attempt error after =
      IsAsked policy error after
      ⊎ (((asked : ℕ) → ¬ IsAsked policy error asked)
          × (after ≡ compute_backoff fl backoff attempt))

  -- The backoff with the parameters of a policy.
  abbrev backoff_of : RetryPolicy fl.F → BackoffPolicy fl
  backoff_of policy = record {
    initial = policy.initial_backoff;
    max_delay = policy.max_backoff;
    multiplier = policy.backoff_multiplier;
    jitter = policy.jitter;
  }

  other_error :
      (policy : RetryPolicy fl.F) (error : InferenceError)
      → server_retry_after error ≡ none
      → (asked : ℕ) → ¬ IsAsked policy error asked
  other_error policy error e asked (respects, (provider, is)) =
      let same : server_retry_after error ≡ some asked = ap server_retry_after is in cc

  ignored :
      (policy : RetryPolicy fl.F) (error : InferenceError)
      → policy.respect_retry_after ≡ false
      → (asked : ℕ) → ¬ IsAsked policy error asked
  ignored policy error e asked (respects, (provider, is)) = cc

  -- A 429 is the only error with a wait of the server's.
  asked_by :
      (error : InferenceError) (asked : ℕ)
      → server_retry_after error ≡ some asked
      → (provider : ProviderKind) × (error ≡ rate_limited provider (some asked))
  asked_by (rate_limited provider (some ra)) asked e =
      (provider, ap (λ a. rate_limited provider a) e)
  asked_by (rate_limited provider none) asked e = absurd (cc)
  asked_by _ asked e = absurd (cc)

  delay-IsWait :
      (e : RetryEngine fl) (attempt : ℕ) (error : InferenceError)
      → IsWait e.policy e.backoff attempt error
          (delay fl e attempt e.policy.respect_retry_after (server_retry_after error))
  unfolding delay
  delay-IsWait e attempt error = elim (Bool-cases e.policy.respect_retry_after) [
    | inr ignores ↦ inr (ignored e.policy error ignores, rw ignores refl)
    | inl respects ↦ elim (Option-cases (server_retry_after error)) [
      | inl unasked ↦ inr (other_error e.policy error unasked, rw (respects, unasked) refl)
      | inr (asked, is) ↦ inl (rw (respects, is, delay) (refl, asked_by error asked is))
    ]
  ]

  wait_unique :
      (e : RetryEngine fl) (attempt : ℕ) (error : InferenceError) (after : ℕ)
      → IsWait e.policy e.backoff attempt error after
      → after ≡ delay fl e attempt e.policy.respect_retry_after (server_retry_after error)
  unfolding delay
  wait_unique e attempt error after (inl (respects, (provider, is))) = rw (is, respects) refl
  wait_unique e attempt error after (inr (unasked, is)) = elim (delay-IsWait e attempt error) [
    | inl asked ↦ absurd (unasked _ asked)
    | inr (_, backs_off) ↦ is ∙ sym backs_off
  ]

  -- For any engine, with the wait that it works out.
  pub decide-delay :
      (e : RetryEngine fl) (attempt : ℕ) (error : InferenceError) (after : ℕ)
      → (decide fl e attempt error ≡ retry after) ↔ (
          (e.idempotent ≡ true)
          × (attempt < e.policy.max_retries)
          × (is_retryable error ≡ true)
          × (after ≡ delay fl e attempt e.policy.respect_retry_after (server_retry_after error)))
  unfolding decide
  decide-delay e attempt error after = (λ h. ground arith, λ h. ground arith)

  -- A failed attempt is made again exactly when the deployment is idempotent, fewer than `max_retries`
  -- retries were made, the error is a retryable one, and the wait is the one that the server named with
  -- a 429, where the policy respects it, and otherwise the backoff.
  decide-IsWait :
      (e : RetryEngine fl) (attempt : ℕ) (error : InferenceError) (after : ℕ)
      → (decide fl e attempt error ≡ retry after) ↔ (
          (e.idempotent ≡ true)
          × (attempt < e.policy.max_retries)
          × (is_retryable error ≡ true)
          × IsWait e.policy e.backoff attempt error after)
  decide-IsWait e attempt error after =
      let (to, from) = decide-delay e attempt error after in
      (
        λ h.
            let (idempotent, fewer, retryable, is) = to h in
            (
              idempotent,
              fewer,
              retryable,
              subst (λ w. IsWait e.policy e.backoff attempt error w) (sym is)
                  (delay-IsWait e attempt error),
            ),
        λ h. from (h.0, h.1, h.2, wait_unique e attempt error after h.3),
      )

  -- The wait with its bound, and without.
  abbrev pub IsBoundedWait : RetryPolicy fl.F → ℕ → InferenceError → ℕ → Type 0
  IsBoundedWait policy attempt error after =
      IsAsked policy error after
      ⊎ (((asked : ℕ) → ¬ IsAsked policy error asked)
          × (after ≡ compute_backoff fl (backoff_of policy) attempt)
          × (after ≤ policy.max_backoff))

  bounded :
      (policy : RetryPolicy fl.F) (attempt : ℕ) (error : InferenceError) (after : ℕ)
      → compute_backoff fl (backoff_of policy) attempt ≤ policy.max_backoff
      → IsWait policy (backoff_of policy) attempt error after
      → IsBoundedWait policy attempt error after
  bounded policy attempt error after capped (inl asked) = inl asked
  bounded policy attempt error after capped (inr (unasked, is)) = inr (unasked, is, omega arith)

  forget :
      (policy : RetryPolicy fl.F) (attempt : ℕ) (error : InferenceError) (after : ℕ)
      → IsBoundedWait policy attempt error after
      → IsWait policy (backoff_of policy) attempt error after
  forget policy attempt error after (inl asked) = inl asked
  forget policy attempt error after (inr (unasked, is, short)) = inr (unasked, is)

  -- The engine of a policy makes a failed attempt again exactly when the deployment is idempotent, fewer
  -- than `max_retries` retries were made, the error is a retryable one, and the wait is the one that the
  -- server named with a 429, where the policy respects it, and otherwise the backoff of the policy's own
  -- parameters, which is then no longer than the policy's longest (below 2 ^ 53 milliseconds).
  pub decide_iff :
      (policy : RetryPolicy fl.F) (idempotent : Bool) (attempt : ℕ) (error : InferenceError)
      (after : ℕ)
      → as_millis policy.max_backoff < 2 ^ 53
      → (decide fl (new fl policy idempotent) attempt error ≡ retry after) ↔ (
          (idempotent ≡ true)
          × (attempt < policy.max_retries)
          × (is_retryable error ≡ true)
          × IsBoundedWait policy attempt error after)
  unfolding new from_retry_policy
  decide_iff policy idempotent attempt error after small =
      let (to, from) = decide-IsWait (new fl policy idempotent) attempt error after in
      let capped = compute_backoff-le_max fl (backoff_of policy) attempt small in
      (
        λ h.
            let (may, fewer, retryable, wait) = to h in
            (may, fewer, retryable, bounded policy attempt error after capped wait),
        λ h. from (h.0, h.1, h.2, forget policy attempt error after h.3),
      )

  -- The decision is a function of fewer than `max_retries` attempts: from then on it is to give up.
  pub decide_exhausted :
      (e : RetryEngine fl) (attempt : ℕ) (error : InferenceError)
      → e.policy.max_retries ≤ attempt
      → decide fl e attempt error ≡ give_up
  unfolding decide
  decide_exhausted e attempt error h = ground arith

  decide_not_idempotent :
      (e : RetryEngine fl) (attempt : ℕ) (error : InferenceError)
      → e.idempotent ≡ false
      → decide fl e attempt error ≡ give_up
  unfolding decide
  decide_not_idempotent e attempt error h = ground arith
