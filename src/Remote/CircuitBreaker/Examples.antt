-- ===== src/Remote/CircuitBreaker/Examples.antt =====
-- Runs of the breaker at concrete configurations, and instances of its theorems.
use rakka_inference.Base.{Result, [], arith, err, none, refl, ℕ, ◌+◌, ◌<◌, ◌∷◌, ◌≡◌, ◌≤◌, ◌⊎◌}
use rakka_inference.Core.Runtime.{CircuitBreakerConfig, ProviderKind}
use rakka_inference.Core.Error.{InferenceError, circuit_open, server_error}
use rakka_inference.Remote.CircuitBreaker.{
  CircuitBreakerHandle, fail_all, force_open, half_open, new, opened, record_failure, run, state,
}
use rakka_inference.Remote.CircuitBreaker.Opening.{opens_at_threshold}
use rakka_inference.Remote.CircuitBreaker.Gate.{
  failed_probes_do_not_reopen, forced_retry_in_the_past, run_refuses_until,
}

abbrev two_strikes : CircuitBreakerConfig
two_strikes = record { failure_threshold = 2; open_duration = 30; half_open_max_probes = 1 }

-- Built at instant 100, and opened by its second failure, 60 nanoseconds later.
abbrev tripped : CircuitBreakerHandle
tripped = record {
  provider = ProviderKind.open_ai;
  config = two_strikes;
  failures = 2;
  opened_at_ns = 60;
  epoch = 100;
  forced_open_until = none;
}

abbrev unavailable : Unit {0} → Result ℕ InferenceError
unavailable _ = err (server_error 503 none)

two_failures_trip : fail_all (new ProviderKind.open_ai two_strikes 100) (110 ∷ 160 ∷ []) ≡ tripped
unfolding fail_all new record_failure
two_failures_trip = refl

opens_after_threshold : state tripped 170 ≡ opened
unfolding state
opens_after_threshold = refl

half_open_after_duration : state tripped 190 ≡ half_open
unfolding state
half_open_after_duration = refl

opens_at_threshold_example :
    (fail_all (new ProviderKind.open_ai two_strikes 100) (110 ∷ 160 ∷ 170 ∷ [])).opened_at_ns ≡ 60
opens_at_threshold_example =
    opens_at_threshold ProviderKind.open_ai two_strikes 100 (110 ∷ 160 ∷ 170 ∷ []) 1 (omega arith)
      (omega arith) (omega arith)

-- An operator holds the tripped breaker open from 165 to 185; its own duration ends at 190.
abbrev held : CircuitBreakerHandle
held = force_open (fail_all (new ProviderKind.open_ai two_strikes 100) (110 ∷ 160 ∷ [])) 165 20

run_refuses_until_example :
    ((187 < 165 + 20 ⊎ 187 < 160 + 30)
      × ((opened_at : ℕ) × (retry_at : ℕ) × (run held 187 5000 188 unavailable
            ≡ (held, err (circuit_open ProviderKind.open_ai opened_at retry_at)))))
    ⊎ ((165 + 20 ≤ 187)
        × (160 + 30 ≤ 187)
        × ((run held 187 5000 188 unavailable).1 ≡ unavailable tt))
run_refuses_until_example =
    run_refuses_until ProviderKind.open_ai two_strikes 100 (110 ∷ 160 ∷ []) 1 160 165 20 187 5000
      188 unavailable (omega arith) (omega arith) (omega arith) refl (omega arith) (omega arith)
      (omega arith)

failed_probes_do_not_reopen_example :
    (state (fail_all tripped (200 ∷ 201 ∷ [])) 202 ≡ half_open)
    × ((run (fail_all tripped (200 ∷ 201 ∷ [])) 202 5000 210 unavailable).1 ≡ unavailable tt)
failed_probes_do_not_reopen_example =
    failed_probes_do_not_reopen tripped (200 ∷ 201 ∷ []) 202 5000 210 unavailable
      (refl, omega arith, omega arith)

abbrev aged : CircuitBreakerHandle
aged = record tripped { opened_at_ns = 0 }

-- It is held for a second.
abbrev forced : CircuitBreakerHandle
forced = force_open aged 8_000_000 1_000_000_000

forced_is_open : state forced 9_000_000 ≡ opened
unfolding state force_open
forced_is_open = refl

forced_retry_in_the_past_example :
    (opened_at : ℕ) × (retry_at : ℕ) × (run forced 9_000_000 5000 9_000_001 unavailable
      ≡ (forced, err (circuit_open ProviderKind.open_ai opened_at retry_at)))
    × (retry_at < 5000)
forced_retry_in_the_past_example =
    forced_retry_in_the_past aged 8_000_000 1_000_000_000 9_000_000 5000 9_000_001 unavailable refl
      (omega arith) (omega arith) (omega arith) (omega arith) (omega arith)
