-- ===== src/Remote/CircuitBreaker/Opening.antt =====
-- When the breaker opens: the count of failures against the threshold, and what resets it.
use rakka_inference.Base.{
  All, List, Option, [], ap, arith, get_elem?, length, max, none, refl, some, suc, zero, ℕ, ◌+◌,
  ◌-◌, ◌<◌, ◌^◌, ◌∙◌, ◌∷◌, ◌≡◌,
}
use rakka_inference.Core.Runtime.{CircuitBreakerConfig, ProviderKind}
use rakka_inference.Remote.CircuitBreaker.{
  CircuitBreakerHandle, fail_all, new, record_failure, record_success,
}

-- The failures come after the handle was built, and within the range of a `u64` of nanoseconds.
abbrev pub IsAfter : ℕ → ℕ → Type 0
IsAfter epoch t = (epoch < t) × (t < epoch + 2 ^ 64)

-- What `opened_at_ns` holds after the failure that opened the breaker, if one did.
abbrev pub opened_by : ℕ → Option ℕ → ℕ
opened_by epoch none = 0
opened_by epoch (some t) = t - epoch

-- A failure leaves an open breaker's instant alone, and changes nothing but the two counters.
pub record_failure-open :
    (h : CircuitBreakerHandle) (t : ℕ)
    → 0 < h.opened_at_ns
    → (record_failure h t).opened_at_ns ≡ h.opened_at_ns
unfolding record_failure
record_failure-open h t o = ground arith

record_failure-trips :
    (h : CircuitBreakerHandle) (t : ℕ)
    → h.opened_at_ns ≡ 0
    → h.failures + 1 ≡ max 1 h.config.failure_threshold
    → h.failures + 1 < 2 ^ 32
    → IsAfter h.epoch t
    → (record_failure h t).opened_at_ns ≡ t - h.epoch
unfolding record_failure
record_failure-trips h t o e b a = ground arith

record_failure-below :
    (h : CircuitBreakerHandle) (t k : ℕ)
    → h.opened_at_ns ≡ 0
    → h.failures + suc (suc k) ≡ max 1 h.config.failure_threshold
    → h.failures + 1 < 2 ^ 32
    → ((record_failure h t).opened_at_ns ≡ 0) × ((record_failure h t).failures ≡ h.failures + 1)
unfolding record_failure
record_failure-below h t k o e b = ground arith

pub record_failure-frame :
    (h : CircuitBreakerHandle) (t : ℕ)
    → let h' = record_failure h t in
      (h'.config ≡ h.config) × (h'.epoch ≡ h.epoch) × (h'.forced_open_until ≡ h.forced_open_until)
unfolding record_failure
record_failure-frame h t = ground arith

record_failure-provider :
    (h : CircuitBreakerHandle) (t : ℕ) → (record_failure h t).provider ≡ h.provider
unfolding record_failure
record_failure-provider h t = ground arith

pub fail_all-frame :
    (h : CircuitBreakerHandle) (ts : List ℕ)
    → let h' = fail_all h ts in
      (h'.config ≡ h.config) × (h'.epoch ≡ h.epoch) × (h'.provider ≡ h.provider)
unfolding fail_all
fail_all-frame h [] = (refl, refl, refl)
fail_all-frame h (t ∷ ts) =
    let (config, epoch, provider) = fail_all-frame (record_failure h t) ts in
    let same = record_failure-frame h t in
    (config ∙ same.0, epoch ∙ same.1, provider ∙ record_failure-provider h t)

fail_all-open :
    (h : CircuitBreakerHandle) (ts : List ℕ)
    → 0 < h.opened_at_ns
    → (fail_all h ts).opened_at_ns ≡ h.opened_at_ns
unfolding fail_all
fail_all-open h [] o = refl
fail_all-open h (t ∷ ts) o =
    let e = record_failure-open h t o in
    fail_all-open (record_failure h t) ts (omega (arith, e)) ∙ e

fail_all-closed :
    (h : CircuitBreakerHandle) (ts : List ℕ) (k : ℕ)
    → h.opened_at_ns ≡ 0
    → h.failures + suc k ≡ max 1 h.config.failure_threshold
    → h.failures + length ts < 2 ^ 32
    → All (IsAfter h.epoch) ts
    → (fail_all h ts).opened_at_ns ≡ opened_by h.epoch (get_elem? ts k)
unfolding fail_all
fail_all-closed h [] k o e b a = o
fail_all-closed h (t ∷ ts) zero o e b a =
    let trip = record_failure-trips h t o (omega arith) (omega arith) a.0 in
    fail_all-open (record_failure h t) ts (omega (arith, trip, a.0)) ∙ trip
fail_all-closed h (t ∷ ts) (suc k) o e b a =
    let step = record_failure-below h t k o e (omega arith) in
    let same = record_failure-frame h t in
    let rest =
      fail_all-closed (record_failure h t) ts k step.0 (rw (step.1, same.0) (omega arith))
        (rw step.1 (omega arith)) (rw same.1 a.1) in
    rest ∙ ap (λ e. opened_by e (get_elem? ts k)) same.1

-- From a new handle, `opened_at_ns` stays 0 until the failure that reaches the threshold, and holds
-- the instant of that failure from then on: later failures do not move it.
pub opens_at_threshold :
    (p : ProviderKind) (c : CircuitBreakerConfig) (epoch : ℕ) (ts : List ℕ) (k : ℕ)
    → suc k ≡ max 1 c.failure_threshold
    → length ts < 2 ^ 32
    → All (IsAfter epoch) ts
    → (fail_all (new p c epoch) ts).opened_at_ns ≡ opened_by epoch (get_elem? ts k)
unfolding new
opens_at_threshold p c epoch ts k e b a =
    fail_all-closed (new p c epoch) ts k refl (omega arith) (omega arith) a

-- One recorded success erases the history: failures count towards the threshold again from the
-- start, as they do for a new handle.
success_restarts_count :
    (h : CircuitBreakerHandle) (ts : List ℕ) (k : ℕ)
    → suc k ≡ max 1 h.config.failure_threshold
    → length ts < 2 ^ 32
    → All (IsAfter h.epoch) ts
    → (fail_all (record_success h) ts).opened_at_ns ≡ opened_by h.epoch (get_elem? ts k)
unfolding record_success
success_restarts_count h ts k e b a =
    fail_all-closed (record_success h) ts k refl (omega arith) (omega arith) a
