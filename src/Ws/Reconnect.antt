-- ===== src/Ws/Reconnect.antt =====
-- crates/inference-runtime-ws-core/src/reconnect.rs: the delays between attempts to connect.
pub mod Attempts
mod Examples
use rakka_inference.Base.{
  List, Option, [], if◌then◌else◌, leb, ltb, none, not, some, suc, zero, ℕ, ◌&&◌, ◌+◌, ◌-◌, ◌==◌,
  ◌^◌, ◌∷◌,
}
use rakka_inference.Core.Float.{Float}
use rakka_inference.Remote.Backoff.{BackoffPolicy, compute_backoff}

module _ (fl : Float) where
  pub record ReconnectEngine : Type 0 where
    pub policy : BackoffPolicy fl
    pub max_attempts : ℕ  -- u32
    pub attempt : ℕ  -- u32

  pub new : BackoffPolicy fl → ℕ → ReconnectEngine
  new policy max_attempts = record { policy = policy; max_attempts = max_attempts; attempt = 0 }

  reset : ReconnectEngine → ReconnectEngine
  reset r = record r { attempt = 0 }

  -- `u32::saturating_add`.
  abbrev saturating_add_u32 : ℕ → ℕ → ℕ
  saturating_add_u32 a b = if ltb (a + b) (2 ^ 32) then a + b else 2 ^ 32 - 1

  pub next_delay : ReconnectEngine → ReconnectEngine × Option ℕ
  next_delay r =
      if r.attempt == 0
      then (record r { attempt = 1 }, some 0)
      else if not (r.max_attempts == 0) && leb r.max_attempts r.attempt
      then (r, none)
      else (
        record r { attempt = saturating_add_u32 r.attempt 1 },
        some (compute_backoff fl r.policy (r.attempt - 1)),
      )

  -- The answers to `n` calls in a row.
  pub next_delays : ReconnectEngine → ℕ → ReconnectEngine × List (Option ℕ)
  unfolding next_delay
  next_delays r zero = (r, [])
  next_delays r (suc n) =
      let (r', d) = next_delay r in let (r'', ds) = next_delays r' n in (r'', d ∷ ds)
