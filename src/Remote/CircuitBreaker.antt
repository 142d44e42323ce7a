-- ===== src/Remote/CircuitBreaker.antt =====
-- crates/inference-remote-core/src/circuit_breaker.rs. An instant is a number of nanoseconds; the
-- monotonic clock (`now`) and the wall clock (`utc_ms`, not before 1970) are arguments.
pub mod Opening
pub mod Gate
mod Examples
use rakka_inference.Base.{
  Bool, List, Option, Result, [], err, false, if◌then◌else◌, leb, ltb, none, ok, some, ℕ, ◌&&◌, ◌+◌,
  ◌-◌, ◌/◌, ◌==◌, ◌^◌, ◌∷◌,
}
use rakka_inference.Core.Duration.{as_millis, nanos_per_milli, u32, u64}
use rakka_inference.Core.Runtime.{CircuitBreakerConfig, ProviderKind}
use rakka_inference.Core.Error.{InferenceError, circuit_open, counts_as_circuit_failure}
use Prim.Native.Nat.{min}

pub data CircuitState : Type 0 where
  closed opened half_open : CircuitState

pub record CircuitBreakerHandle : Type 0 where
  pub provider : ProviderKind
  pub config : CircuitBreakerConfig
  pub failures : ℕ  -- u32
  pub opened_at_ns : ℕ  -- u64
  pub epoch : ℕ
  pub forced_open_until : Option ℕ

pub new : ProviderKind → CircuitBreakerConfig → ℕ → CircuitBreakerHandle
new provider config now = record {
  provider = provider;
  config = config;
  failures = 0;
  opened_at_ns = 0;
  epoch = now;
  forced_open_until = none;
}

-- `self.epoch.elapsed().as_nanos() as u64`; `elapsed` saturates.
abbrev pub elapsed_ns : CircuitBreakerHandle → ℕ → ℕ
elapsed_ns h now = u64 (now - h.epoch)

abbrev pub is_forced : Option ℕ → ℕ → Bool
is_forced none now = false
is_forced (some until) now = ltb now until

pub state : CircuitBreakerHandle → ℕ → CircuitState
state h now =
    if is_forced h.forced_open_until now
    then opened
    else if h.opened_at_ns == 0
    then closed
    else if leb (u64 h.config.open_duration) (elapsed_ns h now - h.opened_at_ns)
    then half_open
    else opened

-- `utc_ms.saturating_sub(since_ns as i64 / 1_000_000) as u64`.
opened_at_unix : ℕ → ℕ → ℕ
opened_at_unix utc_ms since_ns =
    if ltb since_ns (2 ^ 63)
    then u64 (utc_ms + 2 ^ 64 - since_ns / nanos_per_milli)
    else min (utc_ms + (2 ^ 64 - since_ns) / nanos_per_milli) (2 ^ 63 - 1)

saturating_add_u64 : ℕ → ℕ → ℕ
saturating_add_u64 a b = min (a + b) (2 ^ 64 - 1)

pub circuit_open_error : CircuitBreakerHandle → ℕ → ℕ → InferenceError
unfolding opened_at_unix saturating_add_u64
circuit_open_error h now utc_ms =
    let opened_at = opened_at_unix utc_ms (elapsed_ns h now - h.opened_at_ns) in
    circuit_open h.provider opened_at
      (saturating_add_u64 opened_at (u64 (as_millis h.config.open_duration)))

abbrev admit : CircuitState → InferenceError → Result (Unit {0}) InferenceError
admit closed e = ok tt
admit half_open e = ok tt
admit opened e = err e

unfoldable pub check : CircuitBreakerHandle → ℕ → ℕ → Result (Unit {0}) InferenceError
unfolding state
check h now utc_ms = admit (state h now) (circuit_open_error h now utc_ms)

pub record_success : CircuitBreakerHandle → CircuitBreakerHandle
record_success h = record h { failures = 0; opened_at_ns = 0 }

pub record_failure : CircuitBreakerHandle → ℕ → CircuitBreakerHandle
record_failure h now =
    let n = u32 (h.failures + 1) in
    if leb h.config.failure_threshold n && h.opened_at_ns == 0
    then record h { failures = n; opened_at_ns = elapsed_ns h now }
    else record h { failures = n }

-- The `match` of `run` on the outcome of the wrapped block, which ends at `later`.
pub settle :
    {T : Type 0} → CircuitBreakerHandle → ℕ → Result T InferenceError → CircuitBreakerHandle
unfolding record_success record_failure counts_as_circuit_failure
settle h later (ok v) = record_success h
settle h later (err e) = if counts_as_circuit_failure e then record_failure h later else h

-- The block `f` runs only if the check passes.
gated :
    {T : Type 0}
    → CircuitBreakerHandle
    → ℕ
    → (Unit {0} → Result T InferenceError)
    → Result (Unit {0}) InferenceError
    → CircuitBreakerHandle × Result T InferenceError
unfolding settle
gated h later f (ok _) = (settle h later (f tt), f tt)
gated h later f (err e) = (h, err e)

pub run :
    {T : Type 0}
    → CircuitBreakerHandle
    → ℕ
    → ℕ
    → ℕ
    → (Unit {0} → Result T InferenceError)
    → CircuitBreakerHandle × Result T InferenceError
unfolding gated check
run h now utc_ms later f = gated h later f (check h now utc_ms)

pub force_open : CircuitBreakerHandle → ℕ → ℕ → CircuitBreakerHandle
force_open h now duration = record h { forced_open_until = some (now + duration) }

pub data CircuitBreakerMsg : Type 0 where
  check_msg get_state : CircuitBreakerMsg
  force_open_msg : (duration : ℕ) → CircuitBreakerMsg

pub data CircuitBreakerReply : Type 0 where
  checked : Result (Unit {0}) InferenceError → CircuitBreakerReply
  current : CircuitState → CircuitBreakerReply
  silent : CircuitBreakerReply

-- The actor's `handle`: the handle afterwards and what is sent on the reply channel.
pub handle :
    CircuitBreakerHandle → ℕ → ℕ → CircuitBreakerMsg → CircuitBreakerHandle × CircuitBreakerReply
unfolding check state force_open
handle h now utc_ms check_msg = (h, checked (check h now utc_ms))
handle h now utc_ms get_state = (h, current (state h now))
handle h now utc_ms (force_open_msg duration) = (force_open h now duration, silent)

-- Failures that count, recorded at the given instants.
pub fail_all : CircuitBreakerHandle → List ℕ → CircuitBreakerHandle
unfolding record_failure
fail_all h [] = h
fail_all h (t ∷ ts) = fail_all (record_failure h t) ts
