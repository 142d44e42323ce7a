-- ===== src/Core/Runtime/Transport.antt =====
-- How the three classifications of a runtime kind agree.
use rakka_inference.Base.{arith, refl, true, ◌↔◌, ◌≡◌}
use rakka_inference.Core.Runtime.{
  ProviderKind, RuntimeKind, is_audio, is_local, is_remote, remote_network, transport_of,
  unknown_transport,
}

-- A kind is remote exactly when its transport is a network call, and an audio kind is never called
-- remote, is called local, and has no transport of its own.
is_remote_iff :
    (k : RuntimeKind)
    → ((is_remote k ≡ true) ↔ ((p : ProviderKind) × (transport_of k ≡ remote_network p)))
      × (is_audio k ≡ true → (is_local k ≡ true) × (transport_of k ≡ unknown_transport))
unfolding is_remote is_local is_audio transport_of
is_remote_iff RuntimeKind.open_ai =
    ((λ _. (ProviderKind.open_ai, refl), λ _. refl), λ h. ground arith)
is_remote_iff RuntimeKind.anthropic =
    ((λ _. (ProviderKind.anthropic, refl), λ _. refl), λ h. ground arith)
is_remote_iff RuntimeKind.gemini =
    ((λ _. (ProviderKind.gemini, refl), λ _. refl), λ h. ground arith)
is_remote_iff RuntimeKind.lite_llm =
    ((λ _. (ProviderKind.lite_llm, refl), λ _. refl), λ h. ground arith)
is_remote_iff _ = ((λ h. cc, λ h. cc h.1), λ h. ground arith)
