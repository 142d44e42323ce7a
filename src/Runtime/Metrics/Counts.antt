-- ===== src/Runtime/Metrics/Counts.antt =====
-- The counters of a deployment agree with each other.
use rakka_inference.Base.{arith, ◌+◌, ◌<◌, ◌^◌, ◌≤◌}
use rakka_inference.Runtime.Metrics.{DeploymentMetrics, FailureKind, failed}

module _ {Cost : Type 0} where
  -- The failures that have a counter of their own are among all failures, and those below 2 ^ 64.
  record IsConsistent (e : DeploymentMetrics Cost) : Type 0 where
    pub among :
        e.rate_limited + e.circuit_open + e.timed_out + e.content_filtered ≤ e.requests_failed
    pub fits : e.requests_failed < 2 ^ 64

  module _ (zero_cost : Cost) (add_cost : Cost → Cost → Cost) where
    -- Recording a failure keeps the counters consistent, while fewer than 2 ^ 64 - 1 are recorded.
    failed-IsConsistent :
        (e : DeploymentMetrics Cost) (kind : FailureKind)
        → IsConsistent e
        → e.requests_failed + 1 < 2 ^ 64
        → IsConsistent (failed zero_cost add_cost e kind)
    unfolding failed
    failed-IsConsistent e FailureKind.rate_limited c l = record {
      among = omega arith;
      fits = omega arith;
    }
    failed-IsConsistent e FailureKind.circuit_open c l = record {
      among = omega arith;
      fits = omega arith;
    }
    failed-IsConsistent e FailureKind.timeout c l = record {
      among = omega arith;
      fits = omega arith;
    }
    failed-IsConsistent e FailureKind.content_filtered c l = record {
      among = omega arith;
      fits = omega arith;
    }
    failed-IsConsistent e FailureKind.other c l = record { among = omega arith; fits = omega arith }
