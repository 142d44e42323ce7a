-- ===== src/Local/Vllm/Provision.antt =====
-- `provision_if_ready` of crates/inference-runtime-vllm/src/defaults.rs, with the deployment manager that
-- it tells. `to_value` is serde's conversion of the configuration.
pub mod Registration
use Prim.Native.String.{String}
use Prim.Native.String.{◌++◌ as ◌+++◌}
use rakka_inference.Base.{Bool, List, Option, Result, err, none, ok, some, true, ℕ}
use rakka_inference.Core.Error.{InferenceError, internal}
use rakka_inference.Core.Runtime.{RuntimeConfig, RuntimeKind, vllm}
use rakka_inference.Core.Deployment.{CapacityPolicy, Deployment, Serving, queue}
use rakka_inference.Runtime.Manager.{DeploymentManagerActor, Reply, apply, done, handle, serving}
use rakka_inference.Local.Vllm.{
  GemmaDefaults, Sizes, fallback_variant, min_disk_gb, min_vram_gb, validate_variant,
}
use rakka_inference.Local.Vllm.Probe.{Machine, ProbeResult, error, probe}

pub record VllmConfig (F : Type 0) : Type 0 where
  pub model : String
  pub tensor_parallel_size : ℕ
  pub dtype : String
  pub gpu_memory_utilization : Option F
  pub max_model_len : Option ℕ
  pub hf_cache_dir : Option String
  pub enforce_eager : Option Bool
  pub enable_prefix_caching : Option Bool
  pub enable_chunked_prefill : Option Bool
  pub max_num_seqs : Option ℕ
  pub block_size : Option ℕ
  pub quantization : Option String
  pub limit_mm_per_prompt : Option (List (String × ℕ))
  pub cpu_offload_gb : Option ℕ

pub data ProvisionOutcome : Type 0 where
  ready : (deployment_name : String) → ProvisionOutcome
  skipped : (reason hint : String) → ProvisionOutcome

-- `Serving::default`.
abbrev default_serving : Serving
default_serving = record { max_concurrent = 32; on_capacity_exhausted = CapacityPolicy.queue }

module _ (sz : Sizes) {Json : Type 0} (to_value : VllmConfig sz.F → Result Json String) where
  open sz use {F, gb_4_5, gb_7}

  abbrev Manager : Type 0
  Manager = DeploymentManagerActor Json F

  pub vllm_config : GemmaDefaults sz → VllmConfig F
  vllm_config cfg = record {
    model = cfg.model_id;
    tensor_parallel_size = 1;
    dtype = "auto";
    gpu_memory_utilization = some cfg.gpu_memory_utilization;
    max_model_len = cfg.max_model_len;
    hf_cache_dir = cfg.cache_dir;
    enforce_eager = some true;
    enable_prefix_caching = none;
    enable_chunked_prefill = none;
    max_num_seqs = some 16;
    block_size = none;
    quantization = none;
    limit_mm_per_prompt = none;
    cpu_offload_gb = some 4;
  }

  pub deployment_of : GemmaDefaults sz → Json → Deployment Json F
  deployment_of cfg body = record {
    name = cfg.deployment_name;
    model = cfg.model_id;
    runtime = some RuntimeKind.vllm;
    runtime_config = some (RuntimeConfig.vllm body);
    gpus = some 1;
    replicas = 1;
    serving = default_serving;
    budget = none;
    idempotent = true;
  }

  pub unwrap_or : Option F → F → F
  unwrap_or none x = x
  unwrap_or (some y) x = y

  answer : String → Reply Json F → Result ProvisionOutcome InferenceError
  answer name (done (ok _)) = ok (ProvisionOutcome.ready name)
  answer name (done (err e)) = err e
  answer name other = err (internal "gemma defaults: deployment manager dropped reply channel")

  pub registered :
      Manager
      → GemmaDefaults sz
      → Result Json String
      → Manager × Result ProvisionOutcome InferenceError
  unfolding deployment_of answer
  registered manager cfg (err e) =
      (manager, err (internal ("gemma defaults: serialise VllmConfig: " +++ e)))
  registered manager cfg (ok body) =
      let (manager', reply) = handle manager (apply (deployment_of cfg body)) in
      (manager', answer cfg.deployment_name reply)

  pub on_probe :
      Manager → GemmaDefaults sz → ProbeResult F → Manager × Result ProvisionOutcome InferenceError
  unfolding registered vllm_config
  on_probe manager cfg (ProbeResult.skipped reason hint) =
      (manager, ok (ProvisionOutcome.skipped reason hint))
  on_probe manager cfg (error e) = (manager, err e)
  on_probe manager cfg (ProbeResult.ready vram_free_gb cache) =
      registered manager cfg (to_value (vllm_config cfg))

  pub provision_if_ready :
      Manager → Machine F → GemmaDefaults sz → Manager × Result ProvisionOutcome InferenceError
  unfolding on_probe unwrap_or
  provision_if_ready manager machine cfg = elim (validate_variant cfg.model_id) [
    | err e ↦ (manager, err e)
    | ok _ ↦ on_probe manager cfg (
        probe sz machine cfg.model_id (unwrap_or (min_vram_gb sz cfg.model_id) gb_4_5)
          (unwrap_or (min_disk_gb sz cfg.model_id) gb_7) (fallback_variant cfg.model_id))
  ]
