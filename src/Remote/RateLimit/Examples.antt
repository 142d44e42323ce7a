-- ===== src/Remote/RateLimit/Examples.antt =====
-- A limiter over a counter that adds up what it is given, and instances of the theorems.
use Prim.Native.String.{String}
use rakka_inference.Base.{
  List, [], arith, err, false, none, ok, refl, some, ℕ, ◌+◌, ◌∷◌, ◌≡◌, ◌≤◌, ◌⊎◌,
}
use rakka_inference.Base.Text.{decimal}
use rakka_inference.Core.Deployment.{RateLimits}
use rakka_inference.Core.Error.{backpressure}
use rakka_inference.Remote.RateLimit.{
  AcquirePermit, GCounter, RateLimiterActor, acquire, acquire_all, acquire_in_window, limit_message,
  merge_remote_delta_requests, merge_remote_delta_tokens, spend,
}
use rakka_inference.Remote.RateLimit.Budget.{
  Fits, acquire-merge_remote_delta, acquire_in_window_lem, granted_requests, window_budget,
}

-- A counter that forgets which node it counts for.
abbrev total_counter : GCounter
total_counter = record {
  Counter = ℕ;
  Delta = ℕ;
  new = 0;
  increment = λ c node n. c + n;
  merge_delta = λ c d. c + d;
}

abbrev two_per_minute : RateLimits
two_per_minute = record {
  requests_per_minute = some 2;
  tokens_per_minute = none;
  concurrent_requests = none;
  strict = false;
}

abbrev one : AcquirePermit
one = record { requests = 1; tokens = 5 }

abbrev started : RateLimiterActor total_counter
started = record {
  node_id = "node-a";
  limits = two_per_minute;
  requests_counter = 0;
  tokens_counter = 0;
  window = record { started_at = some 0; requests = 0; tokens = 0 };
}

abbrev burst : List (ℕ × AcquirePermit)
burst = (1, one) ∷ (2, one) ∷ (3, one) ∷ []

third_is_refused :
    (acquire_all total_counter started burst).1
    ≡ ok (record { requests = 1; tokens = 5 })
      ∷ ok (record { requests = 1; tokens = 5 })
      ∷ err (backpressure "requests-per-minute limit reached (2/2)")
      ∷ []
unfolding acquire_all limit_message decimal
third_is_refused = refl

window_budget_example :
    let r = acquire_all total_counter started burst in
    (r.0.window.requests ≡ 0 + granted_requests total_counter r.1) × (r.0.window.requests ≤ 2)
window_budget_example =
    window_budget total_counter started 0 2 burst refl refl (omega arith) (omega arith)
      (omega arith)

abbrev FitsOrNot : RateLimiterActor total_counter → AcquirePermit → Type 0
FitsOrNot a req =
    (Fits total_counter a req
      × (acquire_in_window total_counter a req ≡ (
        spend total_counter a req,
        ok (record { requests = req.requests; tokens = req.tokens }),
      ))
      × ((spend total_counter a req).window.requests ≡ a.window.requests + req.requests)
      × ((spend total_counter a req).window.tokens ≡ a.window.tokens + req.tokens))
    ⊎ ((¬ Fits total_counter a req)
        × ((message : String) × (acquire_in_window total_counter a req
              ≡ (a, err (backpressure message)))))

acquire_in_window_lem_example : FitsOrNot started one
acquire_in_window_lem_example =
    acquire_in_window_lem total_counter started one (omega arith, omega arith)

acquire-merge_remote_delta_example :
    let merged =
      merge_remote_delta_tokens total_counter
        (merge_remote_delta_requests total_counter started 1000)
        1000 in
    ((acquire total_counter merged 1 one).1 ≡ (acquire total_counter started 1 one).1)
    × ((acquire total_counter merged 1 one).0.window
        ≡ (acquire total_counter started 1 one).0.window)
acquire-merge_remote_delta_example =
    acquire-merge_remote_delta total_counter started 1000 1000 1 one
