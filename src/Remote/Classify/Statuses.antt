-- ===== src/Remote/Classify/Statuses.antt =====
-- Which statuses are worth another attempt.
use rakka_inference.Base.{Option, arith, ℕ, ◌==◌, ◌||◌, ◌↔◌, ◌≡◌}
use rakka_inference.Core.Runtime.{ProviderKind}
use rakka_inference.Core.Error.{
  InferenceError, counts_as_circuit_failure, is_retryable, rate_limited,
}
use rakka_inference.Remote.Classify.{classify_http_status, is_server_status}
use Prim.Native.String.{String}

module _ (debug : Option String → String) (provider : ProviderKind) (status : ℕ)
    (retry_after : Option ℕ) (body : Option String) where
  abbrev error : InferenceError
  error = classify_http_status debug provider status retry_after body

  retryable : is_retryable error ≡ (status == 429 || is_server_status status)
  unfolding classify_http_status is_retryable
  retryable = ground arith

  failure : counts_as_circuit_failure error ≡ is_server_status status
  unfolding classify_http_status counts_as_circuit_failure
  failure = ground arith

  limited : error ≡ rate_limited provider retry_after → status ≡ 429
  unfolding classify_http_status
  limited e = ground arith

  limits : status ≡ 429 → error ≡ rate_limited provider retry_after
  unfolding classify_http_status
  limits e = ground arith

-- A status leads to another attempt exactly when it is 429 or from 500 to 599, and counts as a failure
-- of the provider exactly when it is from 500 to 599; what the server says to wait is passed on exactly
-- for 429.
pub classify_http_status_iff :
    (debug : Option String → String) (provider : ProviderKind) (status : ℕ) (retry_after : Option ℕ)
    (body : Option String)
    → let e = classify_http_status debug provider status retry_after body in
      (is_retryable e ≡ (status == 429 || is_server_status status))
      × (counts_as_circuit_failure e ≡ is_server_status status)
      × ((e ≡ rate_limited provider retry_after) ↔ (status ≡ 429))
unfolding classify_http_status is_retryable counts_as_circuit_failure
classify_http_status_iff debug provider status retry_after body = (
  retryable debug provider status retry_after body,
  failure debug provider status retry_after body,
  (limited debug provider status retry_after body, limits debug provider status retry_after body),
)
