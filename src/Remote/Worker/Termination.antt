-- ===== src/Remote/Worker/Termination.antt =====
-- The retry loop ends, within the policy's number of calls of the runner.
use mathlib.Core.List.{append_assoc, map-append}
use native.Mathlib.Decide.{dec_lt}
use rakka_inference.Base.{
  Bool-cases, List, Option, Result, [], arith, err, inl, inr, length, map, ok, refl, some, suc,
  zero, ℕ, ◌++◌, ◌+◌, ◌-◌, ◌<◌, ◌∷◌, ◌≡◌, ◌≤◌, ◌⊎◌,
}
use rakka_inference.Core.Float.{Float}
use rakka_inference.Core.Error.{InferenceError}
use rakka_inference.Remote.CircuitBreaker.{check}
use rakka_inference.Remote.Retry.{RetryDecision, RetryEngine, decide, give_up, retry}
use rakka_inference.Remote.Retry.Decision.{decide_exhausted}
use rakka_inference.Remote.Worker.{
  ModelRunner, Moment, Outcome, Output, StreamEnd, after_execute, after_failure, after_stream,
  cancelled, execute_with_retries, failed, finished, forward, gate, is_open, send, stopped,
}

module _ (fl : Float) {Batch Chunk : Type 0} (M : ModelRunner Batch Chunk) where
  -- What was sent is what had been sent at `base`, and chunks behind it.
  abbrev pub Extends : List (Result Chunk InferenceError) → Output Chunk → Type 0
  Extends base o = (chunks : List Chunk) × (o.sent ≡ base ++ map ok chunks)

  -- The loop ends with an outcome, after at most `bound` calls of the runner, and has sent chunks only.
  abbrev pub Ends : List (Result Chunk InferenceError) → Option (Outcome fl M) → ℕ → Type 0
  Ends base r bound =
      (out : Outcome fl M) × (r ≡ some out) × (out.executions ≤ bound) × Extends base out.output

  abbrev Rounds : Type 0
  Rounds = M.State → Output Chunk → ℕ → Option (Outcome fl M)

  abbrev EndsAgain : List (Result Chunk InferenceError) → Rounds → ℕ → ℕ → Type 0
  EndsAgain base again n bound =
      (r : M.State) (o : Output Chunk) → Extends base o → Ends base (again r o n) bound

  send-Extends :
      (base : List (Result Chunk InferenceError)) (o : Output Chunk) (c : Chunk)
      → Extends base o
      → Extends base (send o (ok c)).0
  unfolding send
  send-Extends base o c (cs, e) = elim (Bool-cases (is_open o.drops_after (length o.sent))) [
    | inl open_end ↦
        rw open_end (cs ++ c ∷ [], rw (e, map-append) (append_assoc base (map ok cs) (ok c ∷ [])))
    | inr dropped ↦ rw dropped (cs, e)
  ]

  forward-Extends :
      (base : List (Result Chunk InferenceError)) (o : Output Chunk)
      (items : List (Result Chunk InferenceError))
      → Extends base o
      → Extends base (forward o items).0
  unfolding forward
  forward-Extends base o [] x = x
  forward-Extends base o (err e ∷ items) x = x
  forward-Extends base o (ok c ∷ items) x = elim (Bool-cases (send o (ok c)).1) [
    | inl sent ↦ rw sent (forward-Extends base (send o (ok c)).0 items (send-Extends base o c x))
    | inr dropped ↦ rw dropped (send-Extends base o c x)
  ]

  widen :
      (base : List (Result Chunk InferenceError)) (a b : ℕ) (r : Option (Outcome fl M))
      → a ≤ b
      → Ends base r a
      → Ends base r b
  widen base a b r h (out, e, l, x) = (out, e, omega arith, x)

  after_failure-Ends :
      (base : List (Result Chunk InferenceError)) (d : RetryDecision) (e : InferenceError)
      (again : Rounds) (r : M.State) (o : Output Chunk) (n bound : ℕ)
      → n ≤ bound
      → Extends base o
      → (d ≡ give_up) ⊎ EndsAgain base again n bound
      → Ends base (after_failure fl M d e again r o n) bound
  unfolding after_failure stopped
  after_failure-Ends base (retry after) e again r o n bound h x (inl g) = cc
  after_failure-Ends base (retry after) e again r o n bound h x (inr g) = g r o x
  after_failure-Ends base give_up e again r o n bound h x g =
      (record { runner = r; output = o; executions = n; result = err e }, refl, h, x)

  after_stream-Ends :
      (base : List (Result Chunk InferenceError)) (end : StreamEnd)
      (decided : InferenceError → RetryDecision) (again : Rounds) (r : M.State) (o : Output Chunk)
      (n bound : ℕ)
      → n ≤ bound
      → Extends base o
      → ((e : InferenceError) → (decided e ≡ give_up) ⊎ EndsAgain base again n bound)
      → Ends base (after_stream fl M end decided again r o n) bound
  unfolding after_stream stopped
  after_stream-Ends base finished decided again r o n bound h x g =
      (record { runner = r; output = o; executions = n; result = ok tt }, refl, h, x)
  after_stream-Ends base cancelled decided again r o n bound h x g =
      (record { runner = r; output = o; executions = n; result = ok tt }, refl, h, x)
  after_stream-Ends base (failed e) decided again r o n bound h x g =
      after_failure-Ends base (decided e) e again r o n bound h x (g e)

  after_execute-Ends :
      (base : List (Result Chunk InferenceError))
      (res : Result (List (Result Chunk InferenceError)) InferenceError)
      (decided : InferenceError → RetryDecision) (again : Rounds) (r : M.State) (o : Output Chunk)
      (n bound : ℕ)
      → n ≤ bound
      → Extends base o
      → ((e : InferenceError) → (decided e ≡ give_up) ⊎ EndsAgain base again n bound)
      → Ends base (after_execute fl M res decided again r o n) bound
  unfolding after_execute
  after_execute-Ends base (ok items) decided again r o n bound h x g =
      after_stream-Ends base (forward o items).1 decided again r (forward o items).0 n bound h
        (forward-Extends base o items x) g
  after_execute-Ends base (err e) decided again r o n bound h x g =
      after_failure-Ends base (decided e) e again r o n bound h x (g e)

  gate-Ends :
      (base : List (Result Chunk InferenceError)) (checked : Result (Unit {0}) InferenceError)
      (round : Rounds) (r : M.State) (o : Output Chunk) (n bound : ℕ)
      → n ≤ bound
      → Extends base o
      → EndsAgain base round n bound
      → Ends base (gate fl M checked round r o n) bound
  unfolding gate stopped
  gate-Ends base (ok _) round r o n bound h x g = g r o x
  gate-Ends base (err e) round r o n bound h x g =
      (record { runner = r; output = o; executions = n; result = err e }, refl, h, x)

  -- With one round of fuel for each attempt that the policy still allows, the loop ends with an
  -- outcome, whatever the runner, the breaker and the receiver do; it calls the runner at most once
  -- for each of these attempts, and puts nothing but chunks on the output.
  pub execute_with_retries-Ends :
      (fuel : ℕ) (engine : RetryEngine fl) (at : ℕ → Moment) (batch : Batch) (attempt : ℕ)
      (base : List (Result Chunk InferenceError)) (r : M.State) (o : Output Chunk) (n : ℕ)
      → Extends base o
      → attempt ≤ engine.policy.max_retries
      → engine.policy.max_retries < attempt + fuel
      → Ends base
          (execute_with_retries fl M fuel engine at batch attempt r o n)
          (n + (engine.policy.max_retries + 1 - attempt))
  unfolding execute_with_retries
  execute_with_retries-Ends zero engine at batch attempt base r o n x within enough =
      absurd (omega arith)
  execute_with_retries-Ends (suc fuel) engine at batch attempt base r o n x within enough =
      let bound = n + (engine.policy.max_retries + 1 - attempt) in
      let again = execute_with_retries fl M fuel engine at batch (attempt + 1) in
      let m = at attempt in
      gate-Ends base (check m.breaker m.now m.utc_ms) _ r o n bound (omega arith) x (λ r o x.
        after_execute-Ends base (M.execute r batch).1 (decide fl engine attempt) again
          (M.execute r batch).0 o (n + 1) bound (omega arith) x
          (λ e. elim (dec_lt attempt engine.policy.max_retries) [
            | no last ↦ inl (decide_exhausted fl engine attempt e (omega arith))
            | yes more ↦ inr (λ r' o' x'.
                widen base (n + 1 + (engine.policy.max_retries + 1 - (attempt + 1))) bound _
                  (omega arith)
                  (execute_with_retries-Ends fuel engine at batch (attempt + 1) base r' o' (n + 1)
                    x' (omega arith) (omega arith)))
          ]))
