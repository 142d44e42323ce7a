-- ===== src/Local/Vllm.antt =====
-- crates/inference-runtime-vllm/src/defaults.rs, probe.rs and hf_cache.rs: the default deployment of a
-- local model, made where the machine can run it. What the environment is asked (variables, files,
-- subprocesses) is a parameter, and so are 32-bit floats and serde's conversion to JSON.
pub mod Probe
pub mod Provision
mod Examples
use Prim.Native.String.{String}
use Prim.Native.String.{◌++◌ as ◌+++◌}
use rakka_inference.Base.{
  Bool, List, Option, Result, [], err, false, if◌then◌else◌, none, not, ok, some, true, ℕ, ◌||◌,
  ◌∷◌,
}
use rakka_inference.Base.Text.{str_eq}
use rakka_inference.Base.Ascii.{to_ascii_lowercase}
use rakka_inference.Core.Error.{InferenceError, bad_request, unsupported}

pub record Sizes : Type 1 where
  pub F : Type 0
  pub lt_float : F → F → Bool
  -- The literals of the tables, and the default share of the memory.
  pub gb_2_5 : F
  pub gb_4 : F
  pub gb_4_5 : F
  pub gb_7 : F
  pub half_float : F
  -- `{:.1}`.
  pub show : F → String
  -- `free as f32 / 1e9`
  pub gigabytes : ℕ → F
  pub parse_f32 : String → Option F

abbrev pub default_deployment_name : String
default_deployment_name = "gemma-local"

abbrev default_model_id : String
default_model_id = "google/gemma-4-E4B-it"

abbrev supported_variants : List String
supported_variants =
    "google/gemma-4-E2B" ∷ "google/gemma-4-E2B-it" ∷ "google/gemma-4-E4B" ∷ "google/gemma-4-E4B-it"
    ∷ []

is_one_of : List String → String → Bool
is_one_of [] s = false
is_one_of (x ∷ xs) s = str_eq x s || is_one_of xs s

join : List String → String
join [] = ""
join (x ∷ []) = x
join (x ∷ y ∷ xs) = x +++ ", " +++ join (y ∷ xs)

pub validate_variant : String → Result (Unit {0}) InferenceError
unfolding is_one_of join
validate_variant model_id =
    if is_one_of supported_variants model_id
    then ok tt
    else err (
        bad_request (
          "unsupported Gemma variant `"
          +++ model_id
          +++ "` — supported: "
          +++ join supported_variants))

pub fallback_variant : String → Option String
fallback_variant model_id =
    if str_eq model_id "google/gemma-4-E4B-it"
    then some "google/gemma-4-E2B-it"
    else if str_eq model_id "google/gemma-4-E4B"
    then some "google/gemma-4-E2B"
    else none

is_small : String → Bool
is_small model_id = str_eq model_id "google/gemma-4-E2B" || str_eq model_id "google/gemma-4-E2B-it"

is_large : String → Bool
is_large model_id = str_eq model_id "google/gemma-4-E4B" || str_eq model_id "google/gemma-4-E4B-it"

module _ (sz : Sizes) where
  open sz use {F, gb_2_5, gb_4, gb_4_5, gb_7, half_float, parse_f32}

  pub min_vram_gb : String → Option F
  unfolding is_small is_large
  min_vram_gb model_id =
      if is_small model_id then some gb_2_5 else if is_large model_id then some gb_4_5 else none

  pub min_disk_gb : String → Option F
  unfolding is_small is_large
  min_disk_gb model_id =
      if is_small model_id then some gb_4 else if is_large model_id then some gb_7 else none

  pub record GemmaDefaults : Type 0 where
    pub model_id : String
    pub deployment_name : String
    pub cache_dir : Option String
    pub gpu_memory_utilization : F
    pub max_model_len : Option ℕ
    pub auto_provision : Bool

  pub default_config : GemmaDefaults
  default_config = record {
    model_id = default_model_id;
    deployment_name = default_deployment_name;
    cache_dir = none;
    gpu_memory_utilization = half_float;
    max_model_len = none;
    auto_provision = true;
  }

  is_off : String → Bool
  is_off v =
      is_one_of ("0" ∷ "false" ∷ "no" ∷ "off" ∷ "skip" ∷ "skip-quietly" ∷ []) (to_ascii_lowercase v)

  or_else : {A : Type 0} → Option A → A → A
  or_else none x = x
  or_else (some y) x = y

  -- The variables are read by `env_string`, which drops those that are blank.
  from_env : (env_string : String → Option String) (parse_u32 : String → Option ℕ) → GemmaDefaults
  unfolding default_config is_off or_else
  from_env env_string parse_u32 = record {
    model_id = or_else (env_string "ATOMR_INFER_GEMMA_MODEL") default_model_id;
    deployment_name = or_else (env_string "ATOMR_INFER_GEMMA_DEPLOYMENT") default_deployment_name;
    cache_dir = none;
    gpu_memory_utilization = elim (env_string "ATOMR_INFER_GEMMA_GPU_UTIL") [
      | none ↦ half_float
      | some v ↦ or_else (parse_f32 v) half_float
    ];
    max_model_len = elim (env_string "ATOMR_INFER_GEMMA_MAX_LEN") [
      | none ↦ none
      | some v ↦ parse_u32 v
    ];
    auto_provision = elim (env_string "ATOMR_INFER_GEMMA_AUTO") [
      | none ↦ true
      | some v ↦ not (is_off v)
    ];
  }
