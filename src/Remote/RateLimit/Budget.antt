-- ===== src/Remote/RateLimit/Budget.antt =====
-- The limiter keeps to its budgets, and its peers' counts do not enter its decisions.
use Prim.Native.String.{String}
use rakka_inference.Base.{
  Bool-cases, List, Option, Result, [], arith, err, inl, inr, leb, none, ok, refl, some, ℕ, ◌+◌,
  ◌<◌, ◌^◌, ◌∷◌, ◌≡◌, ◌≤◌, ◌⊎◌,
}
use rakka_inference.Core.Error.{InferenceError, backpressure}
use rakka_inference.Remote.RateLimit.{
  AcquirePermit, GCounter, Permit, RateLimiterActor, acquire, acquire_all, acquire_in_window,
  granted, has_run_out, limit_message, merge_remote_delta_requests, merge_remote_delta_tokens,
  rotate_window_if_needed, spend, window_length, within,
}

abbrev pub IsWithin : Option ℕ → ℕ → Type 0
IsWithin none spent = Unit {0}
IsWithin (some limit) spent = spent ≤ limit

-- One budget refuses exactly the spend that would pass its limit.
within_lem :
    (name : String) (limit : Option ℕ) (spent wanted : ℕ)
    → spent + wanted < 2 ^ 64
    → (IsWithin limit (spent + wanted) × (within name limit spent wanted ≡ ok tt))
      ⊎ ((¬ IsWithin limit (spent + wanted))
          × ((message : String) × (within name limit spent wanted ≡ err (backpressure message))))
unfolding within
within_lem name none spent wanted small = inl (tt, refl)
within_lem name (some limit) spent wanted small = elim (Bool-cases (leb (spent + wanted) limit)) [
  | inl fits ↦ inl (ground arith, ground arith)
  | inr over ↦ inr ((λ h. ground arith), (limit_message name spent limit, ground arith))
]

module _ (G : GCounter) where
  pub record Inv (a : RateLimiterActor G) : Type 0 where
    pub requests_within : IsWithin a.limits.requests_per_minute a.window.requests
    pub tokens_within : IsWithin a.limits.tokens_per_minute a.window.tokens

  pub acquire_in_window-Inv :
      (a : RateLimiterActor G) (req : AcquirePermit) → Inv a → Inv (acquire_in_window G a req).0
  unfolding acquire_in_window
  acquire_in_window-Inv a req v = ground arith

  rotate-Inv : (a : RateLimiterActor G) (now : ℕ) → Inv a → Inv (rotate_window_if_needed G a now)
  unfolding rotate_window_if_needed
  rotate-Inv a now v = ground arith

  -- However the requests come, and at whatever instants, neither counter of the window passes its
  -- limit, where it has one.
  acquire_all-Inv :
      (a : RateLimiterActor G) (reqs : List (ℕ × AcquirePermit))
      → Inv a
      → Inv (acquire_all G a reqs).0
  unfolding acquire_all acquire
  acquire_all-Inv a [] v = v
  acquire_all-Inv a ((now, req) ∷ reqs) v =
      acquire_all-Inv (acquire G a now req).0 reqs
        (acquire_in_window-Inv (rotate_window_if_needed G a now) req (rotate-Inv a now v))

  -- A request fits if the window's count and its own stay within the limit.
  abbrev pub Fits : RateLimiterActor G → AcquirePermit → Type 0
  Fits a req =
      IsWithin a.limits.requests_per_minute (a.window.requests + req.requests)
      × IsWithin a.limits.tokens_per_minute (a.window.tokens + req.tokens)

  -- Counts that cannot wrap in 64 bits.
  abbrev IsSmall : RateLimiterActor G → AcquirePermit → Type 0
  IsSmall a req =
      (a.window.requests + req.requests < 2 ^ 64) × (a.window.tokens + req.tokens < 2 ^ 64)

  -- In a window, a request is granted exactly when both budgets have room for it; a grant adds it to
  -- both counters, and a refusal is a `Backpressure` that changes nothing at all.
  pub acquire_in_window_lem :
      (a : RateLimiterActor G) (req : AcquirePermit)
      → IsSmall a req
      → (Fits a req
          × (acquire_in_window G a req
              ≡ (spend G a req, ok (record { requests = req.requests; tokens = req.tokens })))
          × ((spend G a req).window.requests ≡ a.window.requests + req.requests)
          × ((spend G a req).window.tokens ≡ a.window.tokens + req.tokens))
        ⊎ ((¬ Fits a req)
            × ((message : String) × (acquire_in_window G a req ≡ (a, err (backpressure message)))))
  unfolding acquire_in_window spend granted
  acquire_in_window_lem a req small =
      elim (within_lem "requests-per-minute" a.limits.requests_per_minute _ _ small.0) [
        | inr (over, (m, e)) ↦ inr ((λ fits. over fits.0), (m, rw e refl))
        | inl (fits, e) ↦
            elim (within_lem "tokens-per-minute" a.limits.tokens_per_minute _ _ small.1) [
              | inr (over, (m, e')) ↦ inr ((λ fits. over fits.1), (m, rw (e, e') refl))
              | inl (fits', e') ↦ inl ((fits, fits'), rw (e, e') refl, omega arith, omega arith)
            ]
      ]

  -- What the granted permits of a run amount to.
  abbrev pub granted_requests : List (Result Permit InferenceError) → ℕ
  granted_requests [] = 0
  granted_requests (ok p ∷ rs) = p.requests + granted_requests rs
  granted_requests (err e ∷ rs) = granted_requests rs

  -- All the messages come before the current window has run out, with counts of 32 bits.
  abbrev InWindow : ℕ → List (ℕ × AcquirePermit) → Type 0
  InWindow started [] = Unit {0}
  InWindow started ((now, req) ∷ rest) =
      (now < started + window_length) × (req.requests < 2 ^ 32) × InWindow started rest

  acquire-started :
      (a : RateLimiterActor G) (now started : ℕ) (req : AcquirePermit) (limit : ℕ)
      → a.window.started_at ≡ some started
      → a.limits.requests_per_minute ≡ some limit
      → limit + 2 ^ 32 ≤ 2 ^ 64
      → a.window.requests ≤ limit
      → now < started + window_length
      → req.requests < 2 ^ 32
      → let r = acquire G a now req in
        (r.0.window.started_at ≡ some started)
        × (r.0.limits.requests_per_minute ≡ some limit)
        × (r.0.window.requests ≡ a.window.requests + granted_requests (r.1 ∷ []))
        × (r.0.window.requests ≤ limit)
  unfolding acquire acquire_in_window rotate_window_if_needed spend granted within
  acquire-started a now started req limit s l big v t small = ground arith

  -- In one window the granted requests are exactly what the counter has grown by, and counter and
  -- grants together stay within the limit: the budget is never overspent.
  pub window_budget :
      (a : RateLimiterActor G) (started limit : ℕ) (reqs : List (ℕ × AcquirePermit))
      → a.window.started_at ≡ some started
      → a.limits.requests_per_minute ≡ some limit
      → limit + 2 ^ 32 ≤ 2 ^ 64
      → a.window.requests ≤ limit
      → InWindow started reqs
      → let r = acquire_all G a reqs in
        (r.0.window.requests ≡ a.window.requests + granted_requests r.1)
        × (r.0.window.requests ≤ limit)
  unfolding acquire_all
  window_budget a started limit [] s l big v t = (omega arith, v)
  window_budget a started limit ((now, req) ∷ reqs) s l big v t =
      let step = acquire-started a now started req limit s l big v t.0 t.1 in
      let r = acquire G a now req in
      let rest = window_budget r.0 started limit reqs step.0 step.1 big step.3 t.2 in
      ground (arith, rest, step)

  granted_same_window :
      (a b : RateLimiterActor G) (req : AcquirePermit) (v : Result (Unit {0}) InferenceError)
      → b.window ≡ a.window
      → ((granted G b req v).1 ≡ (granted G a req v).1)
        × ((granted G b req v).0.window ≡ (granted G a req v).0.window)
  unfolding granted spend
  granted_same_window a b req (ok _) w = (refl, rw w refl)
  granted_same_window a b req (err e) w = (refl, w)

  acquire_in_same_window :
      (a b : RateLimiterActor G) (req : AcquirePermit)
      → b.window ≡ a.window
      → b.limits ≡ a.limits
      → ((acquire_in_window G b req).1 ≡ (acquire_in_window G a req).1)
        × ((acquire_in_window G b req).0.window ≡ (acquire_in_window G a req).0.window)
  unfolding acquire_in_window
  acquire_in_same_window a b req w l = simp (w, l) (granted_same_window a b req _ w)

  -- The counts that peers send never enter a decision: with any deltas merged first, the same request
  -- at the same instant gets the same reply and leaves the same window.
  pub acquire-merge_remote_delta :
      (a : RateLimiterActor G) (d e : G.Delta) (now : ℕ) (req : AcquirePermit)
      → let merged = merge_remote_delta_tokens G (merge_remote_delta_requests G a d) e in
        ((acquire G merged now req).1 ≡ (acquire G a now req).1)
        × ((acquire G merged now req).0.window ≡ (acquire G a now req).0.window)
  unfolding acquire rotate_window_if_needed merge_remote_delta_tokens merge_remote_delta_requests
  acquire-merge_remote_delta a d e now req =
      let merged = merge_remote_delta_tokens G (merge_remote_delta_requests G a d) e in
      elim (Bool-cases (has_run_out a.window.started_at now)) [
        | inl out ↦ rw out (refl, refl)
        | inr kept ↦ rw kept (acquire_in_same_window a merged req refl refl)
      ]
