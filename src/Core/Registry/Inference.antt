-- ===== src/Core/Registry/Inference.antt =====
-- What the inference of a runtime can and cannot answer.
use rakka_inference.Base.{Bool, false, if◌then◌else◌, refl, true, ◌||◌, ◌≡◌}
use rakka_inference.Base.Ascii.{to_ascii_lowercase}
use rakka_inference.Core.Runtime.{
  ProviderKind, RuntimeKind, local_gpu, remote_network, transport_of,
}
use rakka_inference.Core.Registry.{
  contains, infer_lower, infer_runtime, matches_any, open_ai_prefixes,
}
use Prim.Native.String.{String}
use text.Mathlib.Text.{starts_with}

-- A backend on this node's GPUs or a provider: the transport is known.
data IsPlaceable (kind : RuntimeKind) : Type 0 where
  here : transport_of kind ≡ local_gpu → IsPlaceable kind
  at : (provider : ProviderKind) → transport_of kind ≡ remote_network provider → IsPlaceable kind

IsPlaceable-if :
    (b : Bool) {x y : RuntimeKind}
    → IsPlaceable x
    → IsPlaceable y
    → IsPlaceable (if b then x else y)
IsPlaceable-if true p q = p
IsPlaceable-if false p q = q

infer_lower-IsPlaceable : (m : String) → IsPlaceable (infer_lower m)
unfolding infer_lower transport_of
infer_lower-IsPlaceable m =
    IsPlaceable-if (matches_any m open_ai_prefixes) {x = RuntimeKind.open_ai}
      (at ProviderKind.open_ai refl)
      (IsPlaceable-if (starts_with m "claude-" || starts_with m "anthropic/")
        {x = RuntimeKind.anthropic} (at ProviderKind.anthropic refl)
        (IsPlaceable-if (starts_with m "gemini-" || starts_with m "google/gemini")
          {x = RuntimeKind.gemini} (at ProviderKind.gemini refl)
          (IsPlaceable-if (contains m "via-litellm" || starts_with m "litellm/")
            {x = RuntimeKind.lite_llm} (at ProviderKind.lite_llm refl)
            (IsPlaceable-if (contains m "mistral") {x = RuntimeKind.mistral_rs}
              {y = RuntimeKind.vllm} (here refl) (here refl)))))

-- The runtime inferred for a model always has a transport that the placement knows, whatever the
-- model's name.
infer_runtime-IsPlaceable : (model : String) → IsPlaceable (infer_runtime model)
unfolding infer_runtime
infer_runtime-IsPlaceable model = infer_lower-IsPlaceable (to_ascii_lowercase model)
