-- ===== src/Remote/Worker/Examples.antt =====
-- A flaky runner under the retry loop, and instances of the theorems on backoff, retries and workers.
use rakka_inference.Remote.Retry.{new as new_engine}
use rakka_inference.Base.{
  List, Result, [], arith, err, map, none, ok, refl, some, suc, true, zero, ℕ, ◌+◌, ◌-◌, ◌<◌, ◌↔◌,
  ◌∷◌, ◌≡◌,
}
use rakka_inference.Core.Float.Fixed.{fixed}
use rakka_inference.Core.Error.{InferenceError, is_retryable, rate_limited, server_error}
use rakka_inference.Core.Duration.{from_millis, from_secs}
use rakka_inference.Core.Runtime.{JitterKind, ProviderKind}
use rakka_inference.Core.Deployment.{RetryPolicy}
use rakka_inference.Remote.CircuitBreaker.{check}
use rakka_inference.Remote.Backoff.{BackoffPolicy, compute_backoff}
use rakka_inference.Remote.Retry.{RetryEngine, decide, delay, retry}
use rakka_inference.Remote.Retry.Decision.{IsBoundedWait, decide-delay, decide_iff}
use rakka_inference.Remote.Worker.{
  ModelRunner, Moment, Output, RemoteWorkerActor, dispatch, execute_with_retries,
}
use rakka_inference.Remote.Worker.Termination.{Ends, execute_with_retries-Ends}
use rakka_inference.Remote.Worker.Delivery.{Reported, dispatch-ends, retry_resends, undropped}

abbrev three_retries : RetryPolicy ℕ
three_retries = record {
  max_retries = 3;
  initial_backoff = from_millis 100;
  max_backoff = from_millis 2000;
  backoff_multiplier = 20_000;
  jitter = JitterKind.none;
  respect_retry_after = true;
}

abbrev doubling : BackoffPolicy fixed
doubling = record {
  initial = from_millis 100;
  max_delay = from_millis 2000;
  multiplier = 20_000;
  jitter = JitterKind.none;
}

abbrev engine : RetryEngine fixed
engine = record { policy = three_retries; backoff = doubling; idempotent = true }

grows_and_caps :
    map (compute_backoff fixed doubling) (0 ∷ 1 ∷ 2 ∷ 10 ∷ [])
    ≡ map from_millis (100 ∷ 200 ∷ 400 ∷ 2000 ∷ [])
unfolding compute_backoff
grows_and_caps = refl

-- Seconds to wait, as a server gives them with a 429.
abbrev busy : InferenceError
busy = rate_limited ProviderKind.open_ai (some (from_secs 5))

decide_iff_example :
    (decide fixed (new_engine fixed three_retries true) 0 busy ≡ retry (from_secs 5)) ↔ (
      (true ≡ true)
      × (0 < 3)
      × (is_retryable busy ≡ true)
      × IsBoundedWait fixed three_retries 0 busy (from_secs 5))
decide_iff_example = decide_iff fixed three_retries true 0 busy (from_secs 5) (omega arith)

waits_as_asked : decide fixed (new_engine fixed three_retries true) 0 busy ≡ retry (from_secs 5)
unfolding decide new_engine
waits_as_asked = refl

-- The first stream breaks off after one chunk.
abbrev items : ℕ → Result (List (Result ℕ InferenceError)) InferenceError
items zero = ok (ok 7 ∷ err (server_error 503 none) ∷ [])
items (suc n) = ok (ok 7 ∷ ok 8 ∷ [])

abbrev flaky : ModelRunner ℕ ℕ
flaky = record { State = ℕ; execute = λ n batch. (suc n, items n) }

abbrev calm : ℕ → Moment
calm attempt = record {
  breaker = record {
    provider = ProviderKind.open_ai;
    config = record { failure_threshold = 1; open_duration = 30; half_open_max_probes = 1 };
    failures = 0;
    opened_at_ns = 0;
    epoch = 0;
    forced_open_until = none;
  };
  now = attempt;
  utc_ms = 5000;
}

calm_is_open : (attempt : ℕ) → check (calm attempt).breaker attempt 5000 ≡ ok tt
unfolding check
calm_is_open attempt = refl

execute_with_retries-Ends_example :
    Ends fixed flaky []
      (execute_with_retries fixed flaky 4 engine calm 0 0 0 (undropped fixed flaky []) 0)
      (0 + (3 + 1 - 0))
execute_with_retries-Ends_example =
    execute_with_retries-Ends fixed flaky 4 engine calm 0 0 [] 0 (undropped fixed flaky []) 0
      ([], refl) (omega arith) (omega arith)

abbrev worker : RemoteWorkerActor fixed flaky
worker = record { runner = 0; idle_signals = 0 }

dispatch-ends_example :
    (w' : RemoteWorkerActor fixed flaky) × (o' : Output ℕ) × (dispatch fixed flaky engine calm
        worker 0
        (undropped fixed flaky [])
      ≡ some (w', o'))
    × (w'.idle_signals ≡ 0 + 1)
    × Reported fixed flaky [] o'
dispatch-ends_example = dispatch-ends fixed flaky engine calm worker 0 (undropped fixed flaky [])

retry_resends_example :
    execute_with_retries fixed flaky 4 engine calm 0 0 0 (undropped fixed flaky []) 0
    ≡ some (record {
      runner = 2;
      output = undropped fixed flaky (ok 7 ∷ ok 7 ∷ ok 8 ∷ []);
      executions = 2;
      result = ok tt;
    })
retry_resends_example =
    retry_resends fixed flaky engine calm 0 0 1 2 (7 ∷ []) (7 ∷ 8 ∷ []) (server_error 503 none)
      (delay fixed engine 0 true none) 2 refl refl
      ((decide-delay fixed engine 0 (server_error 503 none) _).1
        (refl, omega arith, unfold is_retryable in refl, refl))
      (calm_is_open 0) (calm_is_open 1)
