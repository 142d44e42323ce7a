-- ===== src/Runtime/Metrics.antt =====
-- crates/inference-runtime/src/metrics.rs: counters for each deployment, of 64 bits. The type of costs
-- (floats, in the source), with its zero and its addition, is a parameter.
pub mod Counts
use rakka_inference.Base.{List, Option, none, some, ℕ, ◌+◌}
use rakka_inference.Core.Duration.{u64}
use rakka_inference.Core.Tokens.{TokenUsage, Tokens, add, no_usage}
use Prim.Native.String.{String}
use rakka_inference.Base.Maps
use rakka_inference.Core.Tokens

module _ (Cost : Type 0) where
  pub record DeploymentMetrics : Type 0 where
    pub requests_succeeded : ℕ
    pub requests_failed : ℕ
    pub rate_limited : ℕ
    pub circuit_open : ℕ
    pub timed_out : ℕ
    pub content_filtered : ℕ
    pub usage : TokenUsage
    pub cost_usd : Cost

  pub record MetricsSnapshot : Type 0 where
    pub per_deployment : List (String × DeploymentMetrics)

pub data FailureKind : Type 0 where
  rate_limited circuit_open timeout content_filtered other : FailureKind

module _ (Cost : Type 0) where
  pub data MetricsMsg : Type 0 where
    record_success : (deployment : String) (usage : TokenUsage) (cost_usd : Cost) → MetricsMsg
    record_failure : (deployment : String) (kind : FailureKind) → MetricsMsg
    snapshot : MetricsMsg

module _ {Cost : Type 0} (zero_cost : Cost) (add_cost : Cost → Cost → Cost) where
  abbrev no_metrics : DeploymentMetrics Cost
  no_metrics = record {
    requests_succeeded = 0;
    requests_failed = 0;
    rate_limited = 0;
    circuit_open = 0;
    timed_out = 0;
    content_filtered = 0;
    usage = no_usage;
    cost_usd = zero_cost;
  }

  -- `entry(name).or_default()`.
  abbrev entry : MetricsSnapshot Cost → String → DeploymentMetrics Cost
  entry state name = elim (Maps.get state.per_deployment name) [ none ↦ no_metrics | some e ↦ e ]

  pub succeeded : DeploymentMetrics Cost → TokenUsage → Cost → DeploymentMetrics Cost
  succeeded e usage cost = record e {
    requests_succeeded = u64 (e.requests_succeeded + 1);
    usage = Tokens.add e.usage usage;
    cost_usd = add_cost e.cost_usd cost;
  }

  pub failed : DeploymentMetrics Cost → FailureKind → DeploymentMetrics Cost
  failed e FailureKind.rate_limited = record e {
    requests_failed = u64 (e.requests_failed + 1);
    rate_limited = u64 (e.rate_limited + 1);
  }
  failed e FailureKind.circuit_open = record e {
    requests_failed = u64 (e.requests_failed + 1);
    circuit_open = u64 (e.circuit_open + 1);
  }
  failed e FailureKind.timeout = record e {
    requests_failed = u64 (e.requests_failed + 1);
    timed_out = u64 (e.timed_out + 1);
  }
  failed e FailureKind.content_filtered = record e {
    requests_failed = u64 (e.requests_failed + 1);
    content_filtered = u64 (e.content_filtered + 1);
  }
  failed e other = record e { requests_failed = u64 (e.requests_failed + 1) }

  pub handle :
      MetricsSnapshot Cost → MetricsMsg Cost → MetricsSnapshot Cost × Option (MetricsSnapshot Cost)
  unfolding succeeded failed
  handle state (record_success deployment usage cost) = (
    record {
      per_deployment =
          Maps.insert state.per_deployment deployment
            (succeeded (entry state deployment) usage cost);
    },
    none,
  )
  handle state (record_failure deployment kind) = (
    record {
      per_deployment =
          Maps.insert state.per_deployment deployment (failed (entry state deployment) kind);
    },
    none,
  )
  handle state snapshot = (state, some state)
