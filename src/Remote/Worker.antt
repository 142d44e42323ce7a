-- ===== src/Remote/Worker.antt =====
-- crates/inference-remote-core/src/worker.rs: one slot of the pool, and its retry loop. The runner
-- is a value of the `ModelRunner` trait, a stream is the finite list of what it yields, and the
-- receiver of a channel may be dropped after some number of items.
pub mod Termination
pub mod Delivery
mod Examples
use rakka_inference.Base.{
  Bool, List, Option, Result, [], err, false, if◌then◌else◌, length, ltb, none, ok, some, suc, true,
  zero, ℕ, ◌++◌, ◌+◌, ◌∷◌,
}
use rakka_inference.Core.Float.{Float}
use rakka_inference.Core.Error.{InferenceError}
use rakka_inference.Remote.CircuitBreaker.{CircuitBreakerHandle, check}
use rakka_inference.Remote.Retry.{RetryDecision, RetryEngine, decide, give_up, retry}

-- `ModelRunner::execute`.
pub record ModelRunner (Batch Chunk : Type 0) : Type 1 where
  pub State : Type 0
  pub execute : State → Batch → State × Result (List (Result Chunk InferenceError)) InferenceError

-- A sender's view of a bounded channel: what was sent, and after how many items the receiver is
-- dropped, if it is.
pub record Output (Chunk : Type 0) : Type 0 where
  pub sent : List (Result Chunk InferenceError)
  pub drops_after : Option ℕ

abbrev pub is_open : Option ℕ → ℕ → Bool
is_open none n = true
is_open (some limit) n = ltb n limit

-- What the breaker and the clocks show when an attempt begins.
pub record Moment : Type 0 where
  pub breaker : CircuitBreakerHandle
  pub now : ℕ
  pub utc_ms : ℕ

pub data StreamEnd : Type 0 where
  finished cancelled : StreamEnd
  failed : InferenceError → StreamEnd

module _ {Chunk : Type 0} where
  -- `output.send(item)`: the output, and whether the send succeeded.
  unfoldable pub send : Output Chunk → Result Chunk InferenceError → Output Chunk × Bool
  send o item =
      if is_open o.drops_after (length o.sent)
      then (record o { sent = o.sent ++ item ∷ [] }, true)
      else (o, false)

  -- The `while let` over the stream's items.
  pub forward : Output Chunk → List (Result Chunk InferenceError) → Output Chunk × StreamEnd
  unfolding send
  forward o [] = (o, finished)
  forward o (err e ∷ items) = (o, failed e)
  forward o (ok chunk ∷ items) =
      let (o', sent) = send o (ok chunk) in
      let rest = forward o' items in if sent then rest else (o', cancelled)

module _ (fl : Float) {Batch Chunk : Type 0} (M : ModelRunner Batch Chunk) where
  -- What one call of `execute_with_retries` leaves, and the calls of the runner that it made.
  pub record Outcome : Type 0 where
    pub runner : M.State
    pub output : Output Chunk
    pub executions : ℕ
    pub result : Result (Unit {0}) InferenceError

  pub stopped : M.State → Output Chunk → ℕ → Result (Unit {0}) InferenceError → Option Outcome
  stopped r o n result = some (record { runner = r; output = o; executions = n; result = result })

  pub after_failure :
      RetryDecision
      → InferenceError
      → (M.State → Output Chunk → ℕ → Option Outcome)
      → M.State
      → Output Chunk
      → ℕ
      → Option Outcome
  unfolding stopped
  after_failure (retry after) e again r o n = again r o n
  after_failure give_up e again r o n = stopped r o n (err e)

  pub after_stream :
      StreamEnd
      → (InferenceError → RetryDecision)
      → (M.State → Output Chunk → ℕ → Option Outcome)
      → M.State
      → Output Chunk
      → ℕ
      → Option Outcome
  unfolding after_failure
  after_stream finished decided again r o n = stopped r o n (ok tt)
  after_stream cancelled decided again r o n = stopped r o n (ok tt)
  after_stream (failed e) decided again r o n = after_failure (decided e) e again r o n

  pub after_execute :
      Result (List (Result Chunk InferenceError)) InferenceError
      → (InferenceError → RetryDecision)
      → (M.State → Output Chunk → ℕ → Option Outcome)
      → M.State
      → Output Chunk
      → ℕ
      → Option Outcome
  unfolding after_stream forward
  after_execute (ok items) decided again r o n =
      let (o', end) = forward o items in after_stream end decided again r o' n
  after_execute (err e) decided again r o n = after_failure (decided e) e again r o n

  pub gate :
      Result (Unit {0}) InferenceError
      → (M.State → Output Chunk → ℕ → Option Outcome)
      → M.State
      → Output Chunk
      → ℕ
      → Option Outcome
  unfolding stopped
  gate (err e) attempt r o n = stopped r o n (err e)
  gate (ok _) attempt r o n = attempt r o n

  -- The permit that is asked for before every attempt is always granted. `none` is fuel run out.
  pub execute_with_retries :
      ℕ → RetryEngine fl → (ℕ → Moment) → Batch → ℕ → M.State → Output Chunk → ℕ → Option Outcome
  unfolding gate after_execute
  execute_with_retries zero engine at batch attempt r o n = none
  execute_with_retries (suc fuel) engine at batch attempt r o n =
      let again = execute_with_retries fuel engine at batch (attempt + 1) in
      let m = at attempt in
      gate (check m.breaker m.now m.utc_ms)
        (λ r o n.
          let (r', res) = M.execute r batch in
          after_execute res (decide fl engine attempt) again r' o (n + 1))
        r o n

  -- The worker's state that `dispatch` changes; `idle_signals` counts the sends on `idle_tx`.
  pub record RemoteWorkerActor : Type 0 where
    pub runner : M.State
    pub idle_signals : ℕ

  -- The final failure goes out as one terminal item.
  pub report : Output Chunk → Result (Unit {0}) InferenceError → Output Chunk
  report o (ok _) = o
  report o (err e) = (send o (err e)).0

  -- Enough rounds for the loop: one more than the retries that the policy allows.
  pub dispatch :
      RetryEngine fl
      → (ℕ → Moment)
      → RemoteWorkerActor
      → Batch
      → Output Chunk
      → Option (RemoteWorkerActor × Output Chunk)
  unfolding execute_with_retries report
  dispatch engine at w batch o =
      elim (execute_with_retries (engine.policy.max_retries + 1) engine at batch 0 w.runner o 0) [
        | none ↦ none
        | some out ↦ some (
          record { runner = out.runner; idle_signals = w.idle_signals + 1 },
          report out.output out.result,
        )
      ]
