-- ===== src/Providers/Errors.antt =====
-- error.rs of crates/inference-runtime-openai/src, crates/inference-runtime-anthropic/src and
-- crates/inference-runtime-gemini/src. Serde's reading of a body, the `Debug` of a body, the reading of
-- Retry-After's dates, and `str::to_lowercase`, which follows the tables of Unicode, are parameters.
pub mod Retries
mod Examples
use Prim.Native.String.{String}
use rakka_inference.Base.{
  Bool, Option, false, if◌then◌else◌, length, none, some, ℕ, ◌&&◌, ◌==◌, ◌||◌,
}
use rakka_inference.Base.Text.{str_eq}
use rakka_inference.Core.Error.{
  InferenceError, content_filtered, context_length_exceeded, forbidden, rate_limited,
}
use rakka_inference.Core.Runtime.{ProviderKind, anthropic, gemini, open_ai}
use rakka_inference.Core.Registry.{contains}
use rakka_inference.Remote.Classify.{classify_http_status}
use rakka_inference.Remote.Classify.RetryAfter.{parse_retry_after}

pub record OpenAiBody : Type 0 where
  pub message : String
  pub code : Option String
  pub kind : Option String

pub record AnthropicBody : Type 0 where
  pub kind : String
  pub message : String

pub record GeminiBody : Type 0 where
  pub message : String
  pub status : String

-- What the crates take from their libraries.
pub record Reading : Type 0 where
  pub debug : Option String → String
  pub to_lowercase : String → String
  pub parse_from_rfc2822 : String → Option ℕ
  pub now : ℕ

is_some_of : String → Option String → Bool
is_some_of s none = false
is_some_of s (some t) = str_eq t s

-- A body that is there, and is read as an error.
pub read_body : {B : Type 0} → (String → Option B) → Option String → Option B
read_body parse none = none
read_body parse (some body) = parse body

module _ (r : Reading) where
  retry_after : Option String → Option ℕ
  unfolding parse_retry_after
  retry_after header = parse_retry_after r.parse_from_rfc2822 r.now header

  generic : ProviderKind → ℕ → Option String → Option String → InferenceError
  unfolding retry_after
  generic provider status header body =
      classify_http_status r.debug provider status (retry_after header) body

  is_filtered : OpenAiBody → Bool
  unfolding is_some_of
  is_filtered b =
      is_some_of "content_filter" b.kind || is_some_of "content_filter_results_violation" b.kind

  openai_upgrade : OpenAiBody → InferenceError → InferenceError
  unfolding is_some_of is_filtered
  openai_upgrade b other =
      if is_some_of "context_length_exceeded" b.code
      then context_length_exceeded 0 0
      else if is_filtered b
      then content_filtered b.message
      else other

  pub classify_openai_error :
      (parse : String → Option OpenAiBody) (status : ℕ) (retry_after_header body : Option String)
      → InferenceError
  unfolding openai_upgrade read_body generic
  classify_openai_error parse status header body =
      let other = generic ProviderKind.open_ai status header body in
      if status == 400
      then elim (read_body parse body) [ none ↦ other | some b ↦ openai_upgrade b other ]
      else other

  pub is_too_long : AnthropicBody → Bool
  is_too_long b =
      str_eq b.kind "invalid_request_error"
      && (contains (r.to_lowercase b.message) "context length"
          || contains (r.to_lowercase b.message) "too long")

  pub is_forbidden : AnthropicBody → Bool
  is_forbidden b = str_eq b.kind "permission_error"

  anthropic_upgrade : AnthropicBody → InferenceError → InferenceError
  unfolding is_too_long is_forbidden
  anthropic_upgrade b other =
      if is_too_long b
      then context_length_exceeded 0 0
      else if is_forbidden b
      then forbidden b.message
      else other

  pub classify_anthropic_error :
      (parse : String → Option AnthropicBody) (status : ℕ) (retry_after_header body : Option String)
      → InferenceError
  unfolding anthropic_upgrade read_body generic
  classify_anthropic_error parse status header body =
      let other = generic ProviderKind.anthropic status header body in
      elim (read_body parse body) [ none ↦ other | some b ↦ anthropic_upgrade b other ]

  pub is_exhausted : GeminiBody → Bool
  is_exhausted b = str_eq b.status "RESOURCE_EXHAUSTED"

  pub is_blocked : GeminiBody → Bool
  is_blocked b =
      contains (r.to_lowercase b.message) "safety" || contains (r.to_lowercase b.message) "blocked"

  gemini_upgrade : GeminiBody → Option String → InferenceError → InferenceError
  unfolding is_exhausted is_blocked retry_after
  gemini_upgrade b header other =
      if is_exhausted b
      then rate_limited ProviderKind.gemini (retry_after header)
      else if is_blocked b
      then content_filtered b.message
      else other

  pub classify_gemini_error :
      (parse : String → Option GeminiBody) (status : ℕ) (retry_after_header body : Option String)
      → InferenceError
  unfolding gemini_upgrade read_body generic
  classify_gemini_error parse status header body =
      let other = generic ProviderKind.gemini status header body in
      elim (read_body parse body) [ none ↦ other | some b ↦ gemini_upgrade b header other ]
