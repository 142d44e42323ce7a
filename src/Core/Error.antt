-- ===== src/Core/Error.antt =====
-- crates/inference-core/src/error.rs: the errors that flow up to a request.
use Prim.Native.String.{String}
use rakka_inference.Base.{ℕ, Bool, true, false, Option}
use rakka_inference.Core.Runtime.{RuntimeKind, ProviderKind}

-- Durations in nanoseconds.
pub data InferenceError : Type 0 where
  rate_limited : (provider : ProviderKind) (retry_after : Option ℕ) → InferenceError
  circuit_open : (provider : ProviderKind) (opened_at_unix_ms retry_at_unix_ms : ℕ) → InferenceError
  content_filtered : (reason : String) → InferenceError
  context_length_exceeded : (tokens max_tokens : ℕ) → InferenceError
  bad_request : (message : String) → InferenceError
  unauthorized : (message : String) → InferenceError
  forbidden : (message : String) → InferenceError
  backpressure : String → InferenceError
  budget_exceeded : (deployment : String) → InferenceError
  network_error : String → InferenceError
  server_error : (status : ℕ) (body : Option String) → InferenceError
  timeout : (elapsed_ms : ℕ) → InferenceError
  cuda_context_poisoned : String → InferenceError
  unsupported : (method : String) (runtime : RuntimeKind) → InferenceError
  unsupported_audio_format : (message : String) → InferenceError
  realtime_closed : (reason : String) → InferenceError
  internal : String → InferenceError

unfoldable pub is_retryable : InferenceError → Bool
is_retryable (rate_limited _ _) = true
is_retryable (server_error _ _) = true
is_retryable (timeout _) = true
is_retryable (network_error _) = true
is_retryable _ = false

unfoldable pub counts_as_circuit_failure : InferenceError → Bool
counts_as_circuit_failure (server_error _ _) = true
counts_as_circuit_failure (timeout _) = true
counts_as_circuit_failure (network_error _) = true
counts_as_circuit_failure _ = false
