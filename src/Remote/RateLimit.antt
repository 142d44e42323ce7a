-- ===== src/Remote/RateLimit.antt =====
-- crates/inference-remote-core/src/rate_limit.rs. Instants are numbers of nanoseconds; the grow-only
-- counter of atomr_distributed_data is a parameter.
pub mod Budget
mod Examples
use Prim.Native.String.{String, ◌++◌ as str_append}
use rakka_inference.Base.Text.{decimal}
use rakka_inference.Core.Duration.{from_secs, u64}
use rakka_inference.Core.Deployment.{RateLimits}
use rakka_inference.Core.Error.{InferenceError, backpressure}
use rakka_inference.Base.{
  Bool, List, Option, Result, [], err, if◌then◌else◌, leb, ltb, none, ok, some, true, ℕ, ◌+◌, ◌-◌,
  ◌/◌, ◌>>◌, ◌∷◌,
}

pub record Permit : Type 0 where
  pub requests : ℕ
  pub tokens : ℕ

-- The reply channel is the result of `handle`.
pub record AcquirePermit : Type 0 where
  pub requests : ℕ  -- u32
  pub tokens : ℕ  -- u32

pub record Window : Type 0 where
  pub started_at : Option ℕ
  pub requests : ℕ  -- u64
  pub tokens : ℕ  -- u64

-- `GCounter` and its `DeltaCrdt` interface, as far as the limiter calls them.
pub record GCounter : Type 1 where
  pub Counter : Type 0
  pub Delta : Type 0
  pub new : Counter
  pub increment : Counter → String → ℕ → Counter
  pub merge_delta : Counter → Delta → Counter

abbrev pub window_length : ℕ
window_length = from_secs 60

-- `format!("{name} limit reached ({}/{})", spent, limit)`.
pub limit_message : String → ℕ → ℕ → String
limit_message name spent limit = str_append name (
    str_append " limit reached ("
      (str_append (decimal spent) (str_append "/" (str_append (decimal limit) ")"))))

-- One budget: refused if the limit exists and the spend would pass it.
pub within : String → Option ℕ → ℕ → ℕ → Result (Unit {0}) InferenceError
unfolding limit_message
within name none spent wanted = ok tt
within name (some limit) spent wanted =
    if ltb limit (u64 (spent + wanted))
    then err (backpressure (limit_message name spent limit))
    else ok tt

abbrev pub has_run_out : Option ℕ → ℕ → Bool
has_run_out none now = true
has_run_out (some started) now = leb window_length (now - started)

abbrev fresh_window : ℕ → Window
fresh_window now = record { started_at = some now; requests = 0; tokens = 0 }

module _ (G : GCounter) where
  open G use {Counter, Delta, increment, merge_delta}

  pub record RateLimiterActor : Type 0 where
    pub node_id : String
    pub limits : RateLimits
    pub requests_counter : Counter
    pub tokens_counter : Counter
    pub window : Window

  pub new : String → RateLimits → RateLimiterActor
  new node_id limits = record {
    node_id = node_id;
    limits = limits;
    requests_counter = G.new;
    tokens_counter = G.new;
    window = record { started_at = none; requests = 0; tokens = 0 };
  }

  -- `RateLimiterHandle::snapshot`, of the handle that the actor shares its window with.
  snapshot : RateLimiterActor → ℕ × ℕ
  snapshot a = (a.window.requests, a.window.tokens)

  pub merge_remote_delta_requests : RateLimiterActor → Delta → RateLimiterActor
  merge_remote_delta_requests a delta = record a {
    requests_counter = merge_delta a.requests_counter delta;
  }

  pub merge_remote_delta_tokens : RateLimiterActor → Delta → RateLimiterActor
  merge_remote_delta_tokens a delta = record a {
    tokens_counter = merge_delta a.tokens_counter delta;
  }

  pub rotate_window_if_needed : RateLimiterActor → ℕ → RateLimiterActor
  rotate_window_if_needed a now =
      if has_run_out a.window.started_at now
      then record a { window = fresh_window now; requests_counter = G.new; tokens_counter = G.new }
      else a

  pub spend : RateLimiterActor → AcquirePermit → RateLimiterActor
  spend a req = record a {
    window = record {
      started_at = a.window.started_at;
      requests = u64 (a.window.requests + req.requests);
      tokens = u64 (a.window.tokens + req.tokens);
    };
    requests_counter = increment a.requests_counter a.node_id req.requests;
    tokens_counter = increment a.tokens_counter a.node_id req.tokens;
  }

  pub granted :
      RateLimiterActor
      → AcquirePermit
      → Result (Unit {0}) InferenceError
      → RateLimiterActor × Result Permit InferenceError
  unfolding spend
  granted a req (ok _) = (spend a req, ok (record { requests = req.requests; tokens = req.tokens }))
  granted a req (err e) = (a, err e)

  -- What `acquire` does once the window has been rotated.
  pub acquire_in_window :
      RateLimiterActor → AcquirePermit → RateLimiterActor × Result Permit InferenceError
  unfolding within granted
  acquire_in_window a req = granted a req (
      within "requests-per-minute" a.limits.requests_per_minute a.window.requests req.requests
      >> within "tokens-per-minute" a.limits.tokens_per_minute a.window.tokens req.tokens)

  pub acquire :
      RateLimiterActor → ℕ → AcquirePermit → RateLimiterActor × Result Permit InferenceError
  unfolding rotate_window_if_needed acquire_in_window
  acquire a now req = acquire_in_window (rotate_window_if_needed a now) req

  -- The strict variant wraps the same actor and runs it as a cluster singleton.
  pub record StrictRateLimiterActor : Type 0 where
    pub inner : RateLimiterActor

  pub handle_strict :
      StrictRateLimiterActor
      → ℕ
      → AcquirePermit
      → StrictRateLimiterActor × Result Permit InferenceError
  unfolding acquire
  handle_strict s now req =
      let (inner, reply) = acquire s.inner now req in (record { inner = inner }, reply)

  -- A run of the actor over its mailbox, with the instant of each message.
  pub acquire_all :
      RateLimiterActor
      → List (ℕ × AcquirePermit)
      → RateLimiterActor × List (Result Permit InferenceError)
  unfolding acquire
  acquire_all a [] = (a, [])
  acquire_all a ((now, req) ∷ rest) =
      let (a', reply) = acquire a now req in
      let (last, replies) = acquire_all a' rest in (last, reply ∷ replies)
