-- ===== src/Core/Registry/Examples.antt =====
-- Model names and their runtimes.
use rakka_inference.Base.{refl, ◌≡◌}
use rakka_inference.Base.Ascii.{to_ascii_lowercase}
use rakka_inference.Core.Runtime.{RuntimeKind}
use rakka_inference.Core.Registry.{infer_runtime}

-- The names of the source's tests.
source_tests :
    (infer_runtime "gpt-4o-mini" ≡ RuntimeKind.open_ai)
    × (infer_runtime "anthropic/claude-3-haiku" ≡ RuntimeKind.anthropic)
    × (infer_runtime "google/gemini-1.5-flash" ≡ RuntimeKind.gemini)
    × (infer_runtime "meta-llama/Llama-3.1-70B-Instruct" ≡ RuntimeKind.vllm)
    × (infer_runtime "mistralai/Mistral-7B-Instruct-v0.3" ≡ RuntimeKind.mistral_rs)
unfolding infer_runtime to_ascii_lowercase
source_tests = (refl, refl, refl, refl, refl)
