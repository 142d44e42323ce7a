-- ===== src/Ws/Reconnect/Attempts.antt =====
-- How many attempts a reconnecting client makes, and how long it waits for each.
use rakka_inference.Base.{
  All, Option, ap, arith, inl, inr, length, none, refl, replicate, some, suc, zero, ℕ, ◌+◌, ◌-◌,
  ◌<◌, ◌^◌, ◌∙◌, ◌≡◌, ◌≤◌, ◌⊎◌,
}
use rakka_inference.Core.Float.{Float}
use rakka_inference.Core.Duration.{as_millis}
use rakka_inference.Remote.Backoff.{BackoffPolicy, compute_backoff}
use rakka_inference.Remote.Backoff.Cap.{compute_backoff-le_max}
use rakka_inference.Ws.Reconnect.{ReconnectEngine, new, next_delay, next_delays}

module _ (fl : Float) where
  -- An attempt is allowed, after a delay of at most `cap`.
  abbrev pub IsAllowed : ℕ → Option ℕ → Type 0
  IsAllowed cap d = (wait : ℕ) × (d ≡ some wait) × (wait ≤ cap)

  length-next_delays : (r : ReconnectEngine fl) (n : ℕ) → length (next_delays fl r n).1 ≡ n
  unfolding next_delays
  length-next_delays r zero = refl
  length-next_delays r (suc n) = ap suc (length-next_delays (next_delay fl r).0 n)

  module _ (policy : BackoffPolicy fl) (max_attempts : ℕ)
      (small : as_millis policy.max_delay < 2 ^ 53) where
    abbrev at : ℕ → ReconnectEngine fl
    at attempt = record { policy = policy; max_attempts = max_attempts; attempt = attempt }

    goes_on :
        (attempt : ℕ)
        → 0 < attempt
        → attempt + 1 < 2 ^ 32
        → (max_attempts ≡ 0) ⊎ (attempt + 1 ≤ max_attempts)
        → next_delay fl (at attempt)
          ≡ (at (attempt + 1), some (compute_backoff fl policy (attempt - 1)))
    unfolding next_delay
    goes_on attempt p l m = ground (arith, m)

    stops :
        (attempt : ℕ)
        → 0 < max_attempts
        → max_attempts ≤ attempt
        → next_delay fl (at attempt) ≡ (at attempt, none)
    unfolding next_delay
    stops attempt p l = ground arith

    below :
        (n attempt : ℕ)
        → 0 < attempt
        → attempt + n < 2 ^ 32
        → (max_attempts ≡ 0) ⊎ (attempt + n ≤ max_attempts)
        → ((next_delays fl (at attempt) n).0 ≡ at (attempt + n))
          × All (IsAllowed policy.max_delay) (next_delays fl (at attempt) n).1
    unfolding next_delays
    below zero attempt p l m = (ap at (omega arith), tt)
    below (suc n) attempt p l m =
        let room : (max_attempts ≡ 0) ⊎ (attempt + 1 ≤ max_attempts) = ground (arith, m) in
        let rest : (max_attempts ≡ 0) ⊎ (attempt + 1 + n ≤ max_attempts) = ground (arith, m) in
        let ih = below n (attempt + 1) (omega arith) (omega arith) rest in
        let wait = compute_backoff fl policy (attempt - 1) in
        rw (goes_on attempt p (omega arith) room, next_delays)
          (
            ih.0 ∙ ap at (omega arith),
            ((wait, refl, compute_backoff-le_max fl policy (attempt - 1) small), ih.1),
          )

    spent :
        (n attempt : ℕ)
        → 0 < max_attempts
        → max_attempts ≤ attempt
        → next_delays fl (at attempt) n ≡ (at attempt, replicate n none)
    unfolding next_delays
    spent zero attempt p l = refl
    spent (suc n) attempt p l = rw (stops attempt p l, next_delays) (rw (spent n attempt p l) refl)

    from_start :
        (n : ℕ)
        → n < 2 ^ 32
        → (max_attempts ≡ 0) ⊎ (n ≤ max_attempts)
        → 0 < n
        → ((next_delays fl (at 0) n).0 ≡ at n)
          × All (IsAllowed policy.max_delay) (next_delays fl (at 0) n).1
    unfolding next_delays next_delay
    from_start zero l m p = elim p [ ]
    from_start (suc n) l m p =
        let ih = below n 1 (omega arith) (omega arith) (ground (arith, m)) in
        (ih.0 ∙ ap at (omega arith), ((0, refl, omega arith), ih.1))

    -- A new engine with a bound on the attempts (and a cap below 2 ^ 53 milliseconds) allows exactly
    -- that many: it answers so many calls with a delay that is at most the cap, and every later call
    -- with none, for good.
    pub next_delays_bounded :
        (extra : ℕ)
        → 0 < max_attempts
        → max_attempts < 2 ^ 32
        → let (r, allowed) = next_delays fl (new fl policy max_attempts) max_attempts in
          (length allowed ≡ max_attempts)
          × All (IsAllowed policy.max_delay) allowed
          × (next_delays fl r extra ≡ (r, replicate extra none))
    unfolding new
    next_delays_bounded extra p l =
        let start = from_start max_attempts l (inr (omega arith)) p in
        (
          length-next_delays (at 0) max_attempts,
          start.1,
          rw start.0 (spent extra max_attempts p (omega arith)),
        )

    -- With a bound of 0, an engine allows every attempt (of fewer than 2 ^ 32).
    next_delays_forever :
        (n : ℕ)
        → max_attempts ≡ 0
        → n < 2 ^ 32
        → All (IsAllowed policy.max_delay) (next_delays fl (new fl policy max_attempts) n).1
    unfolding new next_delays
    next_delays_forever zero z l = tt
    next_delays_forever (suc n) z l = (from_start (suc n) l (inl z) (omega arith)).1
