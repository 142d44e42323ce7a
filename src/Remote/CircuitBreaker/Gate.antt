-- ===== src/Remote/CircuitBreaker/Gate.antt =====
-- What the gate lets through: while the breaker is open, after its duration has run out, and while
-- an operator holds it open.
use rakka_inference.Base.{
  All, All-get_elem?, Bool-cases, List, Result, [], ap, arith, err, false, get_elem?, if◌then◌else◌,
  inl, inr, length, ltb, max, none, refl, some, suc, true, ℕ, ◌+◌, ◌-◌, ◌/◌, ◌<◌, ◌^◌, ◌∙◌, ◌∷◌,
  ◌≡◌, ◌≤◌, ◌⊎◌,
}
use rakka_inference.Remote.CircuitBreaker.Opening.{
  IsAfter, fail_all-frame, opened_by, opens_at_threshold, record_failure-frame, record_failure-open,
}
use rakka_inference.Core.Runtime.{CircuitBreakerConfig, ProviderKind}
use rakka_inference.Core.Duration.{as_millis, nanos_per_milli, u64}
use rakka_inference.Core.Error.{InferenceError, circuit_open}
use rakka_inference.Remote.CircuitBreaker.{
  CircuitBreakerHandle, circuit_open_error, elapsed_ns, fail_all, force_open, half_open, is_forced,
  new, opened, opened_at_unix, record_failure, run, saturating_add_u64, settle, state,
}

-- The breaker is open and its duration has not run out.
abbrev IsHeld : CircuitBreakerHandle → ℕ → Type 0
IsHeld h now =
    (0 < h.opened_at_ns) × (elapsed_ns h now - h.opened_at_ns < u64 h.config.open_duration)

-- The breaker was opened and its duration has run out; no operator holds it.
abbrev HasCooled : CircuitBreakerHandle → ℕ → Type 0
HasCooled h now =
    (is_forced h.forced_open_until now ≡ false)
    × (0 < h.opened_at_ns)
    × (u64 h.config.open_duration ≤ elapsed_ns h now - h.opened_at_ns)

state-open :
    (h : CircuitBreakerHandle) (now : ℕ)
    → (is_forced h.forced_open_until now ≡ true) ⊎ IsHeld h now
    → state h now ≡ opened
unfolding state
state-open h now held = ground arith

state-half_open : (h : CircuitBreakerHandle) (now : ℕ) → HasCooled h now → state h now ≡ half_open
unfolding state
state-half_open h now c = ground arith

run_refuses :
    {T : Type 0} (h : CircuitBreakerHandle) (now utc_ms later : ℕ)
    (f : Unit {0} → Result T InferenceError)
    → (is_forced h.forced_open_until now ≡ true) ⊎ IsHeld h now
    → run h now utc_ms later f ≡ (h, err (circuit_open_error h now utc_ms))
unfolding run
run_refuses h now utc_ms later f held = rw (state-open h now held) refl

-- A call that is refused: the block does not run, the breaker stays as it was, and the error names it.
abbrev IsRefused :
    {T : Type 0}
    → CircuitBreakerHandle
    → ProviderKind
    → (now utc_ms later : ℕ) → (Unit {0} → Result T InferenceError)
    → Type 0
IsRefused h p now utc_ms later f =
    (opened_at : ℕ) × (retry_at : ℕ) × (run h now utc_ms later f
      ≡ (h, err (circuit_open p opened_at retry_at)))

run-IsRefused :
    {T : Type 0} (h : CircuitBreakerHandle) (p : ProviderKind) (now utc_ms later : ℕ)
    (f : Unit {0} → Result T InferenceError)
    → h.provider ≡ p
    → (is_forced h.forced_open_until now ≡ true) ⊎ IsHeld h now
    → IsRefused h p now utc_ms later f
unfolding circuit_open_error
run-IsRefused h p now utc_ms later f same held =
    let opened_at = opened_at_unix utc_ms (elapsed_ns h now - h.opened_at_ns) in
    let retry_at = saturating_add_u64 opened_at (u64 (as_millis h.config.open_duration)) in
    (
      opened_at,
      retry_at,
      run_refuses h now utc_ms later f held
          ∙ ap (λ q. (h, err (circuit_open q opened_at retry_at))) same,
    )

-- Otherwise the block runs, its result is passed on as it is, and the breaker records it: a success
-- closes the breaker, an error that counts is a failure, and any other error changes nothing.
run_passes_when_closed :
    {T : Type 0} (h : CircuitBreakerHandle) (now utc_ms later : ℕ)
    (f : Unit {0} → Result T InferenceError)
    → (is_forced h.forced_open_until now ≡ false) × (h.opened_at_ns ≡ 0) ⊎ HasCooled h now
    → run h now utc_ms later f ≡ (settle h later (f tt), f tt)
unfolding run state
run_passes_when_closed h now utc_ms later f free = ground arith

record_failure-HasCooled :
    (h : CircuitBreakerHandle) (t now : ℕ) → HasCooled h now → HasCooled (record_failure h t) now
record_failure-HasCooled h t now c =
    let e = record_failure-open h t c.1 in
    let same = record_failure-frame h t in rw (e, same.0, same.1, same.2) c

fail_all-HasCooled :
    (h : CircuitBreakerHandle) (ts : List ℕ) (now : ℕ)
    → HasCooled h now
    → HasCooled (fail_all h ts) now
unfolding fail_all
fail_all-HasCooled h [] now c = c
fail_all-HasCooled h (t ∷ ts) now c =
    fail_all-HasCooled (record_failure h t) ts now (record_failure-HasCooled h t now c)

-- Once the duration has run out, failed probes do not open the breaker again: after any number of
-- them, at any instants, the state is still half-open and the next call's block still runs.
pub failed_probes_do_not_reopen :
    {T : Type 0} (h : CircuitBreakerHandle) (ts : List ℕ) (now utc_ms later : ℕ)
    (f : Unit {0} → Result T InferenceError)
    → HasCooled h now
    → (state (fail_all h ts) now ≡ half_open) × ((run (fail_all h ts) now utc_ms later f).1 ≡ f tt)
failed_probes_do_not_reopen h ts now utc_ms later f c =
    let c' = fail_all-HasCooled h ts now c in
    (
      state-half_open (fail_all h ts) now c',
      ap (λ r. r.1) (run_passes_when_closed (fail_all h ts) now utc_ms later f (inr c')),
    )

-- Under an operator's `ForceOpen` the breaker is open until the given expiry and then shows the
-- state that it has without the hold.
force_open_expires :
    (h : CircuitBreakerHandle) (now duration t : ℕ)
    → state (force_open h now duration) t
      ≡ (if ltb t (now + duration) then opened else state (record h { forced_open_until = none }) t)
unfolding force_open state
force_open_expires h now duration t = ground arith

-- What a closed breaker would report.
closed_report :
    (h : CircuitBreakerHandle) (now utc_ms : ℕ)
    → h.opened_at_ns ≡ 0
    → elapsed_ns h now < 2 ^ 63
    → elapsed_ns h now / nanos_per_milli ≤ utc_ms
    → utc_ms < 2 ^ 63
    → h.config.open_duration + nanos_per_milli ≤ elapsed_ns h now
    → (opened_at : ℕ) × (retry_at : ℕ) × (circuit_open_error h now utc_ms
        ≡ circuit_open h.provider opened_at retry_at)
      × (retry_at < utc_ms)
unfolding circuit_open_error
closed_report h now utc_ms o small pos utc old =
    let back = elapsed_ns h now / nanos_per_milli in
    let opened_at = utc_ms - back in
    let retry_at = opened_at + h.config.open_duration / nanos_per_milli in
    (opened_at, retry_at, ground arith, omega arith)

-- A breaker that was opened at the instant `t`, and is held by an operator or not.
gate_cases :
    {T : Type 0} (h : CircuitBreakerHandle) (p : ProviderKind) (epoch t open_duration until : ℕ)
    (now utc_ms later : ℕ) (f : Unit {0} → Result T InferenceError)
    → h.provider ≡ p
    → h.epoch ≡ epoch
    → h.config.open_duration ≡ open_duration
    → h.opened_at_ns ≡ t - epoch
    → h.forced_open_until ≡ some until
    → IsAfter epoch t
    → t ≤ now
    → now < epoch + 2 ^ 64
    → open_duration < 2 ^ 64
    → ((now < until ⊎ now < t + open_duration) × IsRefused h p now utc_ms later f)
      ⊎ ((until ≤ now) × (t + open_duration ≤ now) × ((run h now utc_ms later f).1 ≡ f tt))
gate_cases h p epoch t dur until now utc_ms later f provider same_epoch same_dur o hold a after
      range small =
    let forced : is_forced h.forced_open_until now ≡ ltb now until =
      ap (λ u. is_forced u now) hold in
    elim (Bool-cases (ltb now until)) [
      | inl holds ↦
          inl (
            inl (ground arith),
            run-IsRefused h p now utc_ms later f provider (inl (forced ∙ holds)),
          )
      | inr expired ↦
          let over : until ≤ now = ground arith in
          elim (Bool-cases (ltb now (t + dur))) [
            | inl early ↦
                let soon : now < t + dur = ground arith in
                inl (
                  inr soon,
                  run-IsRefused h p now utc_ms later f provider (inr (omega arith, omega arith)),
                )
            | inr late ↦
                let cooled : t + dur ≤ now = ground arith in
                inr (
                  over,
                  cooled,
                  ap (λ r. r.1)
                      (run_passes_when_closed h now utc_ms later f
                        (inr (forced ∙ expired, omega arith, omega arith))),
                )
          ]
    ]

-- A new breaker whose failures reach the threshold at the instant `t`, and which an operator holds open
-- from `since` on for `duration`, refuses every call up to the end of the hold, and every call within the
-- open duration after `t`, whatever the block would do and without running it; from the later of the two
-- on the block runs. (Instants within a `u64` of nanoseconds from the building of the handle.)
pub run_refuses_until :
    {T : Type 0} (p : ProviderKind) (c : CircuitBreakerConfig) (epoch : ℕ) (ts : List ℕ) (k t : ℕ)
    (since duration now utc_ms later : ℕ) (f : Unit {0} → Result T InferenceError)
    → suc k ≡ max 1 c.failure_threshold
    → length ts < 2 ^ 32
    → All (IsAfter epoch) ts
    → get_elem? ts k ≡ some t
    → t ≤ now
    → now < epoch + 2 ^ 64
    → c.open_duration < 2 ^ 64
    → let h = force_open (fail_all (new p c epoch) ts) since duration in
      ((now < since + duration ⊎ now < t + c.open_duration) × IsRefused h p now utc_ms later f)
      ⊎ ((since + duration ≤ now)
          × (t + c.open_duration ≤ now)
          × ((run h now utc_ms later f).1 ≡ f tt))
unfolding force_open new
run_refuses_until p c epoch ts k t since duration now utc_ms later f reach few all e after range
      small =
    let h0 = fail_all (new p c epoch) ts in
    let same = fail_all-frame (new p c epoch) ts in
    gate_cases (force_open h0 since duration) p epoch t c.open_duration (since + duration) now
      utc_ms later f same.2 same.1 (ap (λ (c' : CircuitBreakerConfig). c'.open_duration) same.0)
      (opens_at_threshold p c epoch ts k reach few all ∙ ap (opened_by epoch) e) refl
      (All-get_elem? (IsAfter epoch) ts k t all e) after range small

-- A closed breaker that an operator holds open refuses calls with an error that takes the building of its
-- handle for its opening, so that the time at which it says to retry has already passed once the handle
-- is older than the open duration by a millisecond, while the hold lasts. (Clocks below 2 ^ 63.)
pub forced_retry_in_the_past :
    {T : Type 0} (h : CircuitBreakerHandle) (since duration now utc_ms later : ℕ)
    (f : Unit {0} → Result T InferenceError)
    → h.opened_at_ns ≡ 0
    → now < since + duration
    → elapsed_ns h now < 2 ^ 63
    → elapsed_ns h now / nanos_per_milli ≤ utc_ms
    → utc_ms < 2 ^ 63
    → h.config.open_duration + nanos_per_milli ≤ elapsed_ns h now
    → let held = force_open h since duration in
      (opened_at : ℕ) × (retry_at : ℕ) × (run held now utc_ms later f
        ≡ (held, err (circuit_open h.provider opened_at retry_at)))
      × (retry_at < utc_ms)
unfolding force_open circuit_open_error
forced_retry_in_the_past h since duration now utc_ms later f o held small pos utc old =
    let (opened_at, retry_at, report, past) = closed_report h now utc_ms o small pos utc old in
    (
      opened_at,
      retry_at,
      run_refuses (force_open h since duration) now utc_ms later f (inl (ground arith))
          ∙ ap (λ x. (force_open h since duration, err x)) report,
      past,
    )
