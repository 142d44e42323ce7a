-- ===== src/Core/Tokens.antt =====
-- crates/inference-core/src/tokens.rs: the chunks of an answer, and what they add up to. The counts of
-- tokens wrap at 32 bits, as in a release build.
pub mod Accumulation
mod Examples
use rakka_inference.Base.{List, Option, [], none, some, ℕ, ◌+◌, ◌∷◌}
use rakka_inference.Core.Duration.{u32}
use Prim.Native.String.{String}
use Prim.Native.String.{◌++◌ as ◌+++◌}

pub data FinishReason : Type 0 where
  stop length tool_calls content_filter error : FinishReason

pub record TokenUsage : Type 0 where
  pub input_tokens : ℕ
  pub output_tokens : ℕ
  pub reasoning_tokens : ℕ
  pub cached_tokens : ℕ

abbrev pub no_usage : TokenUsage
no_usage = record { input_tokens = 0; output_tokens = 0; reasoning_tokens = 0; cached_tokens = 0 }

pub add : TokenUsage → TokenUsage → TokenUsage
add u other = record {
  input_tokens = u32 (u.input_tokens + other.input_tokens);
  output_tokens = u32 (u.output_tokens + other.output_tokens);
  reasoning_tokens = u32 (u.reasoning_tokens + other.reasoning_tokens);
  cached_tokens = u32 (u.cached_tokens + other.cached_tokens);
}

-- The delta of a tool call is a JSON value.
pub record TokenChunk (Json : Type 0) : Type 0 where
  pub request_id : String
  pub text_delta : String
  pub tool_call_delta : Option Json
  pub usage : Option TokenUsage
  pub finish_reason : Option FinishReason

pub record Tokens : Type 0 where
  pub request_id : String
  pub text : String
  pub usage : TokenUsage
  pub finish_reason : Option FinishReason

abbrev pub default_tokens : Tokens
default_tokens = record { request_id = ""; text = ""; usage = no_usage; finish_reason = none }

-- `if let Some(u) = chunk.usage`, and the same for the reason.
add_usage : TokenUsage → Option TokenUsage → TokenUsage
unfolding add
add_usage u none = u
add_usage u (some other) = add u other

later_reason : Option FinishReason → Option FinishReason → Option FinishReason
later_reason old none = old
later_reason old (some r) = some r

module _ {Json : Type 0} where
  unfoldable pub append : Tokens → TokenChunk Json → Tokens
  unfolding add_usage later_reason
  append t chunk = record {
    request_id = t.request_id;
    text = t.text +++ chunk.text_delta;
    usage = add_usage t.usage chunk.usage;
    finish_reason = later_reason t.finish_reason chunk.finish_reason;
  }

  unfoldable pub append_all : Tokens → List (TokenChunk Json) → Tokens
  unfolding append
  append_all t [] = t
  append_all t (c ∷ cs) = append_all (append t c) cs
