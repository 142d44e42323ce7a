-- ===== src/Core/Registry.antt =====
-- crates/inference-core/src/registry.rs: the backend that a model's name stands for.
pub mod Inference
mod Examples
use rakka_inference.Base.{Bool, List, [], false, if◌then◌else◌, none, some, true, ◌||◌, ◌∷◌}
use rakka_inference.Base.Ascii.{to_ascii_lowercase}
use rakka_inference.Core.Runtime.{
  RuntimeKind, anthropic, gemini, lite_llm, mistral_rs, open_ai, vllm,
}
use Prim.Native.String.{String}
use text.Mathlib.Text.{find?, starts_with}

-- `str::contains`.
abbrev pub contains : String → String → Bool
contains s t = elim (find? s t) [ none ↦ false | some _ ↦ true ]

abbrev pub matches_any : String → List String → Bool
matches_any model [] = false
matches_any model (p ∷ ps) = starts_with model p || matches_any model ps

abbrev pub open_ai_prefixes : List String
open_ai_prefixes = "gpt-4" ∷ "gpt-4o" ∷ "gpt-4-turbo" ∷ "gpt-3.5" ∷ "o1-" ∷ "o3-" ∷ "chatgpt-" ∷ []

-- On the name in lower case.
pub infer_lower : String → RuntimeKind
infer_lower m =
    if matches_any m open_ai_prefixes
    then RuntimeKind.open_ai
    else if starts_with m "claude-" || starts_with m "anthropic/"
    then RuntimeKind.anthropic
    else if starts_with m "gemini-" || starts_with m "google/gemini"
    then RuntimeKind.gemini
    else if contains m "via-litellm" || starts_with m "litellm/"
    then RuntimeKind.lite_llm
    else if contains m "mistral"
    then RuntimeKind.mistral_rs
    else RuntimeKind.vllm

pub infer_runtime : String → RuntimeKind
unfolding infer_lower
infer_runtime model = infer_lower (to_ascii_lowercase model)
