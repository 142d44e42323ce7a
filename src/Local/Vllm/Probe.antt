-- ===== src/Local/Vllm/Probe.antt =====
-- crates/inference-runtime-vllm/src/probe.rs and hf_cache.rs. The gates run in the order GPU, Python,
-- vLLM, token, disk; the first that fails decides.
pub mod Gates
use Prim.Native.Char.{code}
use Prim.Native.String.{String}
use Prim.Native.String.{◌++◌ as ◌+++◌}
use mathlib.Core.Option
use rakka_inference.Base.{
  Bool, Option, Result, [], err, false, if◌then◌else◌, map, none, not, ok, set, some, ℕ, ◌/◌, ◌<◌,
  ◌==◌, ◌>>=◌, ◌>>◌, ◌∷◌,
}
use rakka_inference.Base.Text.{str_eq}
use rakka_inference.Core.Error.{InferenceError, internal}
use rakka_inference.Local.Vllm.{Sizes, min_disk_gb, min_vram_gb}

pub record HfCache : Type 0 where
  pub home : String
  pub hub_cache : String
  pub token_path : String

-- What the machine answers: `env_string`, the home directory, the subprocesses, the file of the token
-- (trimmed), and the free space at a path.
pub record Machine (F : Type 0) : Type 0 where
  pub env_string : String → Option String
  pub home_dir : Option String
  pub gpu : Result F String
  pub python : Result (Unit {0}) String
  pub vllm : Result String String
  pub exists : String → Bool
  pub read_trimmed : String → Result String String
  pub free_bytes_at : String → Option ℕ
  pub parent : String → String

pub data ProbeResult (F : Type 0) : Type 0 where
  ready : (vram_free_gb : F) (hf_cache : HfCache) → ProbeResult F
  skipped : (reason hint : String) → ProbeResult F
  error : InferenceError → ProbeResult F

or_option : {A : Type 0} → Option A → Option A → Option A
or_option none y = y
or_option (some x) y = some x

or_path : Option String → String → String
or_path none path = path
or_path (some p) path = p

-- `PathBuf::join` of a relative name: a separator unless there is one at the end, or nothing before it.
needs_separator : String → Bool
needs_separator String.[] = false
needs_separator (String.◌∷◌ c String.[]) = not (code c == b'/')
needs_separator (String.◌∷◌ c (String.◌∷◌ d s)) = needs_separator (String.◌∷◌ d s)

unfoldable pub join_path : String → String → String
unfolding needs_separator
join_path path name = if needs_separator path then path +++ "/" +++ name else path +++ name

module _ {F : Type 0} (machine : Machine F) where
  open machine use {env_string, home_dir, exists, read_trimmed, free_bytes_at, parent}

  -- The three places where the cache may be, in their order.
  home_of : Option String
  unfolding or_option join_path
  home_of = or_option (env_string "HF_HOME") (
      or_option (Option.map (λ d. join_path d "huggingface") (env_string "XDG_CACHE_HOME"))
        (Option.map (λ d. join_path (join_path d ".cache") "huggingface") home_dir))

  pub resolve : Result HfCache InferenceError
  unfolding home_of or_path join_path
  resolve = elim home_of [
    | none ↦ err (internal "hf-cache: no HF_HOME / XDG_CACHE_HOME / $HOME — cannot resolve cache")
    | some home ↦ ok (record {
      home = home;
      hub_cache = or_path (env_string "HF_HUB_CACHE") (join_path home "hub");
      token_path = join_path home "token";
    })
  ]

  saved_token : HfCache → Result (Option String) InferenceError
  saved_token cache =
      if exists cache.token_path
      then elim (read_trimmed cache.token_path) [
        | err e ↦ err (internal ("hf-cache: failed to read " +++ cache.token_path +++ ": " +++ e))
        | ok token ↦ if str_eq token "" then ok none else ok (some token)
      ]
      else ok none

  pub discover_token : HfCache → Result (Option String) InferenceError
  unfolding saved_token or_option
  discover_token cache =
      elim (or_option (env_string "HF_TOKEN") (env_string "HUGGING_FACE_HUB_TOKEN")) [
        | some token ↦ ok (some token)
        | none ↦ saved_token cache
      ]

  pub free_bytes : HfCache → Option ℕ
  unfolding or_option
  free_bytes cache =
      or_option (free_bytes_at cache.hub_cache)
        (or_option (free_bytes_at cache.home) (free_bytes_at (parent cache.home)))

module _ (sz : Sizes) (machine : Machine sz.F) (model_id : String) where
  open sz use {F, lt_float, show, gigabytes}

  -- A gate lets the probe go on, or ends it.
  abbrev Gate : Type 0
  Gate = Result (Unit {0}) (ProbeResult F)

  smaller_hint : Option String → String
  smaller_hint none = "no smaller supported variant — consider a remote backend"
  smaller_hint (some smaller) = "try ATOMR_INFER_GEMMA_MODEL=" +++ smaller

  pub vram_gate : F → F → Option String → Gate
  unfolding smaller_hint
  vram_gate vram_free_gb min_vram_gb suggest =
      if lt_float vram_free_gb min_vram_gb
      then err (
          skipped ("insufficient VRAM for " +++ model_id) (
            "free VRAM "
            +++ show vram_free_gb
            +++ " GB < "
            +++ show min_vram_gb
            +++ " GB needed for "
            +++ model_id
            +++ "; "
            +++ smaller_hint suggest))
      else ok tt

  pub python_gate : Gate
  python_gate = elim machine.python [
    | ok _ ↦ ok tt
    | err reason ↦ err (skipped reason "install Python 3.10+ and ensure `python3` is on PATH")
  ]

  pub vllm_gate : Gate
  vllm_gate = elim machine.vllm [
    | ok version ↦ ok tt
    | err reason ↦
        err (skipped reason "install vLLM in the active venv: `pip install 'vllm>=0.6.4'`")
  ]

  pub token_gate : HfCache → Gate
  token_gate cache = elim (discover_token machine cache) [
    | err e ↦ err (error e)
    | ok token ↦ elim token [
      | some t ↦ ok tt
      | none ↦ err (
          skipped "no HuggingFace token found" (
            "run `huggingface-cli login`, then accept the Gemma ToS at https://huggingface.co/"
            +++ model_id))
    ]
  ]

  -- Where the free space is not known, the gate is open.
  pub disk_gate : HfCache → F → Gate
  disk_gate cache min_disk_gb = elim (free_bytes machine cache) [
    | none ↦ ok tt
    | some free ↦
        if lt_float (gigabytes free) min_disk_gb
        then err (
            skipped
              ("insufficient disk for "
                +++ model_id
                +++ ": "
                +++ show (gigabytes free)
                +++ " GB free at "
                +++ cache.hub_cache
                +++ " (need ~"
                +++ show min_disk_gb
                +++ " GB)")
              "free up space or set HF_HUB_CACHE to a different mountpoint")
        else ok tt
  ]

  pub gpu_gate : Result F (ProbeResult F)
  gpu_gate = elim machine.gpu [
    | ok gb ↦ ok gb
    | err reason ↦ err (
        skipped reason
          "set ATOMR_INFER_GEMMA_AUTO=skip-quietly to suppress this message; set ATOMR_INFER_GEMMA_MODEL=<remote-provider> to use a remote backend")
  ]

  pub cache_gate : Result HfCache (ProbeResult F)
  cache_gate = elim (resolve machine) [ ok cache ↦ ok cache | err e ↦ err (error e) ]

  pub merged : Result (ProbeResult F) (ProbeResult F) → ProbeResult F
  merged (ok r) = r
  merged (err r) = r

  pub probe : (min_vram_gb min_disk_gb : F) → (suggest : Option String) → ProbeResult F
  probe min_vram_gb min_disk_gb suggest = merged (do
    cache ← cache_gate
    vram_free_gb ← gpu_gate
    vram_gate vram_free_gb min_vram_gb suggest
    python_gate
    vllm_gate
    token_gate cache
    disk_gate cache min_disk_gb
    ok (ready vram_free_gb cache))
