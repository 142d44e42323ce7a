-- ===== src/Core/Runtime.antt =====
-- crates/inference-core/src/runtime.rs: the kinds of backend, of transport and of provider.
pub mod Transport
use Prim.Native.String.{String}
use rakka_inference.Base.{ℕ, Bool, true, false, not}

pub data RuntimeKind : Type 0 where
  vllm tensor_rt ort candle cudarc mistral_rs : RuntimeKind
  python : String → RuntimeKind
  open_ai anthropic gemini lite_llm : RuntimeKind
  speech_to_text text_to_speech realtime_speech audio2_face : RuntimeKind
  custom : String → RuntimeKind

pub data ProviderKind : Type 0 where
  open_ai anthropic gemini lite_llm deepgram assembly_ai eleven_labs nvidia_a2_f : ProviderKind
  custom : String → ProviderKind

pub data TransportKind : Type 0 where
  local_gpu local_cpu : TransportKind
  remote_network : ProviderKind → TransportKind
  unknown_transport : TransportKind

-- `RuntimeKind::is_remote`.
pub is_remote : RuntimeKind → Bool
is_remote RuntimeKind.open_ai = true
is_remote RuntimeKind.anthropic = true
is_remote RuntimeKind.gemini = true
is_remote RuntimeKind.lite_llm = true
is_remote _ = false

pub is_local : RuntimeKind → Bool
unfolding is_remote
is_local k = not (is_remote k)

pub is_audio : RuntimeKind → Bool
is_audio speech_to_text = true
is_audio text_to_speech = true
is_audio realtime_speech = true
is_audio audio2_face = true
is_audio _ = false

-- `impl From<&RuntimeKind> for TransportKind`.
unfoldable pub transport_of : RuntimeKind → TransportKind
transport_of RuntimeKind.open_ai = remote_network ProviderKind.open_ai
transport_of RuntimeKind.anthropic = remote_network ProviderKind.anthropic
transport_of RuntimeKind.gemini = remote_network ProviderKind.gemini
transport_of RuntimeKind.lite_llm = remote_network ProviderKind.lite_llm
transport_of vllm = local_gpu
transport_of tensor_rt = local_gpu
transport_of ort = local_gpu
transport_of candle = local_gpu
transport_of cudarc = local_gpu
transport_of mistral_rs = local_gpu
transport_of (python _) = local_gpu
transport_of speech_to_text = unknown_transport
transport_of text_to_speech = unknown_transport
transport_of realtime_speech = unknown_transport
transport_of audio2_face = unknown_transport
transport_of (RuntimeKind.custom _) = unknown_transport

-- The bodies are JSON values, of a third-party type.
pub data RuntimeConfig (Json : Type 0) : Type 0 where
  vllm tensor_rt ort candle cudarc mistral_rs : Json → RuntimeConfig Json
  open_ai anthropic gemini lite_llm : Json → RuntimeConfig Json
  speech_to_text text_to_speech realtime_speech audio2_face : Json → RuntimeConfig Json
  custom : String → Json → RuntimeConfig Json

pub runtime_kind : {Json : Type 0} → RuntimeConfig Json → RuntimeKind
runtime_kind (RuntimeConfig.vllm _) = RuntimeKind.vllm
runtime_kind (RuntimeConfig.tensor_rt _) = RuntimeKind.tensor_rt
runtime_kind (RuntimeConfig.ort _) = RuntimeKind.ort
runtime_kind (RuntimeConfig.candle _) = RuntimeKind.candle
runtime_kind (RuntimeConfig.cudarc _) = RuntimeKind.cudarc
runtime_kind (RuntimeConfig.mistral_rs _) = RuntimeKind.mistral_rs
runtime_kind (RuntimeConfig.open_ai _) = RuntimeKind.open_ai
runtime_kind (RuntimeConfig.anthropic _) = RuntimeKind.anthropic
runtime_kind (RuntimeConfig.gemini _) = RuntimeKind.gemini
runtime_kind (RuntimeConfig.lite_llm _) = RuntimeKind.lite_llm
runtime_kind (RuntimeConfig.speech_to_text _) = RuntimeKind.speech_to_text
runtime_kind (RuntimeConfig.text_to_speech _) = RuntimeKind.text_to_speech
runtime_kind (RuntimeConfig.realtime_speech _) = RuntimeKind.realtime_speech
runtime_kind (RuntimeConfig.audio2_face _) = RuntimeKind.audio2_face
runtime_kind (RuntimeConfig.custom kind _) = RuntimeKind.custom kind

transport_kind : {Json : Type 0} → RuntimeConfig Json → TransportKind
unfolding transport_of runtime_kind
transport_kind c = transport_of (runtime_kind c)

-- `CircuitBreakerConfig`; the duration in nanoseconds.
pub record CircuitBreakerConfig : Type 0 where
  pub failure_threshold : ℕ
  pub open_duration : ℕ
  pub half_open_max_probes : ℕ

pub data JitterKind : Type 0 where
  none equal full : JitterKind
