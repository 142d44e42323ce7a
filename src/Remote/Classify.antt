-- ===== src/Remote/Classify.antt =====
-- crates/inference-remote-core/src/classify.rs: from the status of an HTTP answer to an error.
pub mod Statuses
pub mod RetryAfter
mod Examples
use rakka_inference.Base.{Bool, Option, if◌then◌else◌, leb, ltb, none, some, ℕ, ◌&&◌, ◌==◌}
use rakka_inference.Base.Text.{decimal}
use rakka_inference.Core.Runtime.{ProviderKind}
use rakka_inference.Core.Error.{
  InferenceError, bad_request, forbidden, internal, rate_limited, server_error, unauthorized,
}
use Prim.Native.String.{String}
use Prim.Native.String.{◌++◌ as ◌+++◌}

body_or : String → Option String → String
body_or default none = default
body_or default (some body) = body

-- `(500..600).contains(&s)`
abbrev pub is_server_status : ℕ → Bool
is_server_status s = leb 500 s && ltb s 600

-- The text of a body in the last case is its `Debug`, which is taken as a parameter.
pub classify_http_status :
    (Option String → String)
    → ProviderKind
    → (status : ℕ) → (retry_after : Option ℕ) → (body : Option String) → InferenceError
unfolding body_or decimal
classify_http_status debug provider status retry_after body =
    if status == 429
    then rate_limited provider retry_after
    else if status == 400
    then bad_request (body_or "bad request" body)
    else if status == 401
    then unauthorized (body_or "unauthorized" body)
    else if status == 403
    then forbidden (body_or "forbidden" body)
    else if is_server_status status
    then server_error status body
    else internal ("unexpected status " +++ decimal status +++ ": " +++ debug body)
