-- ===== src/Remote/Worker/Delivery.antt =====
-- What a request sees on its output channel.
use mathlib.Core.List.{append_assoc, append-nil}
use rakka_inference.Base.{
  Bool-cases, List, Result, [], arith, err, inl, inr, length, map, none, ok, refl, some, suc, sym,
  ℕ, ◌++◌, ◌+◌, ◌∙◌, ◌∷◌, ◌≡◌, ◌⊎◌,
}
use rakka_inference.Core.Float.{Float}
use rakka_inference.Core.Error.{InferenceError}
use rakka_inference.Remote.CircuitBreaker.{check}
use rakka_inference.Remote.Retry.{RetryEngine, decide, retry}
use rakka_inference.Remote.Worker.{
  ModelRunner, Moment, Output, RemoteWorkerActor, after_execute, after_failure, after_stream,
  dispatch, execute_with_retries, finished, forward, gate, is_open, report, send, stopped,
}
use rakka_inference.Remote.Worker.Termination.{Extends, execute_with_retries-Ends}

module _ (fl : Float) {Batch Chunk : Type 0} (M : ModelRunner Batch Chunk) where
  -- What one request adds to the output: its chunks, and at most one error, behind them.
  abbrev pub Reported : List (Result Chunk InferenceError) → Output Chunk → Type 0
  Reported base o =
      (chunks : List Chunk) × ((o.sent ≡ base ++ map ok chunks)
        ⊎ ((e : InferenceError) × (o.sent ≡ (base ++ map ok chunks) ++ err e ∷ [])))

  report-Reported :
      (base : List (Result Chunk InferenceError)) (o : Output Chunk)
      (result : Result (Unit {0}) InferenceError)
      → Extends fl M base o
      → Reported base (report fl M o result)
  unfolding report send
  report-Reported base o (ok _) (cs, e) = (cs, inl e)
  report-Reported base o (err x) (cs, e) =
      elim (Bool-cases (is_open o.drops_after (length o.sent))) [
        | inl open_end ↦ rw (open_end, report) (cs, inr (x, rw e refl))
        | inr dropped ↦ rw (dropped, report) (cs, inl e)
      ]

  -- A dispatched request always comes to an end: the worker signals that it is idle exactly once, and
  -- the output gains some chunks and then at most one error, the last item.
  pub dispatch-ends :
      (engine : RetryEngine fl) (at : ℕ → Moment) (w : RemoteWorkerActor fl M) (batch : Batch)
      (o : Output Chunk)
      → (w' : RemoteWorkerActor fl M) × (o' : Output Chunk) × (dispatch fl M engine at w batch o
          ≡ some (w', o'))
        × (w'.idle_signals ≡ w.idle_signals + 1)
        × Reported o.sent o'
  unfolding dispatch
  dispatch-ends engine at w batch o =
      let (out, e, bounded, x) =
        execute_with_retries-Ends fl M (engine.policy.max_retries + 1) engine at batch 0 o.sent
          w.runner o 0 ([], sym (append-nil o.sent)) (omega arith) (omega arith) in
      (
        record { runner = out.runner; idle_signals = w.idle_signals + 1 },
        report fl M out.output out.result,
        rw (e, dispatch) refl,
        refl,
        report-Reported o.sent out.output out.result x,
      )

  abbrev pub undropped : List (Result Chunk InferenceError) → Output Chunk
  undropped sent = record { sent = sent; drops_after = none }

  forward_all :
      (sent : List (Result Chunk InferenceError)) (chunks : List Chunk)
      (rest : List (Result Chunk InferenceError))
      → forward (undropped sent) (map ok chunks ++ rest)
        ≡ forward (undropped (sent ++ map ok chunks)) rest
  unfolding forward send
  forward_all sent [] rest = rw append-nil refl
  forward_all sent (c ∷ chunks) rest =
      forward_all (sent ++ ok c ∷ []) chunks rest
      ∙ rw (append_assoc sent (ok c ∷ []) (map ok chunks)) refl

  forward_all_end :
      (sent : List (Result Chunk InferenceError)) (chunks : List Chunk)
      → forward (undropped sent) (map ok chunks) ≡ (undropped (sent ++ map ok chunks), finished)
  unfolding forward
  forward_all_end sent chunks = rw append-nil at (forward_all sent chunks [])

  module _ (engine : RetryEngine fl) (at : ℕ → Moment) (batch : Batch) where
    retried_round :
        (fuel attempt n after : ℕ) (r r' : M.State) (sent : List (Result Chunk InferenceError))
        (cs : List Chunk) (e : InferenceError)
        → check (at attempt).breaker (at attempt).now (at attempt).utc_ms ≡ ok tt
        → M.execute r batch ≡ (r', ok (map ok cs ++ err e ∷ []))
        → decide fl engine attempt e ≡ retry after
        → execute_with_retries fl M (suc fuel) engine at batch attempt r (undropped sent) n
          ≡ execute_with_retries fl M fuel engine at batch
              (attempt + 1)
              r'
              (undropped (sent ++ map ok cs))
              (n + 1)
    unfolding execute_with_retries gate after_execute after_stream after_failure forward
    retried_round fuel attempt n after r r' sent cs e open_gate first again =
        rw (open_gate, gate, first, forward_all sent cs (err e ∷ []), again) refl

    last_round :
        (fuel attempt n : ℕ) (r r' : M.State) (sent : List (Result Chunk InferenceError))
        (cs : List Chunk)
        → check (at attempt).breaker (at attempt).now (at attempt).utc_ms ≡ ok tt
        → M.execute r batch ≡ (r', ok (map ok cs))
        → execute_with_retries fl M (suc fuel) engine at batch attempt r (undropped sent) n
          ≡ stopped fl M r' (undropped (sent ++ map ok cs)) (n + 1) (ok tt)
    unfolding execute_with_retries gate after_execute after_stream forward
    last_round fuel attempt n r r' sent cs open_gate last =
        rw (open_gate, gate, last, forward_all_end sent cs) refl

  -- A stream that fails after some chunks is tried again from its start: where the first attempt
  -- yields `cs` and then an error that is retried, and the second yields `ds`, the request gets `cs`
  -- and then `ds`, and no sign of the restart.
  pub retry_resends :
      (engine : RetryEngine fl) (at : ℕ → Moment) (batch : Batch) (r r₁ r₂ : M.State)
      (cs ds : List Chunk) (e : InferenceError) (after fuel : ℕ)
      → M.execute r batch ≡ (r₁, ok (map ok cs ++ err e ∷ []))
      → M.execute r₁ batch ≡ (r₂, ok (map ok ds))
      → decide fl engine 0 e ≡ retry after
      → check (at 0).breaker (at 0).now (at 0).utc_ms ≡ ok tt
      → check (at 1).breaker (at 1).now (at 1).utc_ms ≡ ok tt
      → execute_with_retries fl M (suc (suc fuel)) engine at batch 0 r (undropped []) 0
        ≡ some (record {
          runner = r₂;
          output = undropped (map ok cs ++ map ok ds);
          executions = 2;
          result = ok tt;
        })
  unfolding stopped
  retry_resends engine at batch r r₁ r₂ cs ds e after fuel first second again open_0 open_1 =
      retried_round engine at batch (suc fuel) 0 0 after r r₁ [] cs e open_0 first again
      ∙ last_round engine at batch fuel 1 1 r₁ r₂ (map ok cs) ds open_1 second
