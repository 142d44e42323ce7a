-- ===== src/Local/Vllm/Examples.antt =====
-- A machine with a large GPU. Floats are tenths here.
use Prim.Native.String.{String}
use rakka_inference.Base.{
  Option, Result, err, false, if◌then◌else◌, ltb, none, ok, refl, some, ℕ, ◌/◌, ◌≡◌,
}
use rakka_inference.Base.Text.{decimal, str_eq}
use rakka_inference.Runtime.Manager.{new}
use rakka_inference.Local.Vllm.{Sizes, default_config, validate_variant}
use rakka_inference.Local.Vllm.Probe.{Machine, join_path}
use rakka_inference.Local.Vllm.Provision.{VllmConfig, provision_if_ready}
use rakka_inference.Local.Vllm.Provision.Registration.{
  IsProvisioned, provision_if_ready-IsProvisioned,
}

abbrev tenths : Sizes
tenths = record {
  F = ℕ;
  lt_float = ltb;
  gb_2_5 = 25;
  gb_4 = 40;
  gb_4_5 = 45;
  gb_7 = 70;
  half_float = 5;
  show = decimal;
  gigabytes = λ n. n / 100_000_000;
  parse_f32 = λ v. none;
}

abbrev variables : String → Option String
variables name = if str_eq name "HF_TOKEN" then some "hf_1" else none

abbrev machine : Machine ℕ
machine = record {
  env_string = variables;
  home_dir = some "/home/user";
  gpu = ok 160;
  python = ok tt;
  vllm = ok "0.20.0";
  exists = λ path. false;
  read_trimmed = λ path. err "no such file";
  free_bytes_at = λ path. none;
  parent = λ path. path;
}

abbrev to_model : VllmConfig ℕ → Result String String
to_model c = ok c.model

e4b_is_supported : validate_variant "google/gemma-4-E4B-it" ≡ ok tt
unfolding validate_variant
e4b_is_supported = refl

joined : join_path "/data/hf/" "hub" ≡ join_path "/data/hf" "hub"
unfolding join_path
joined = refl

provision_if_ready-IsProvisioned_example :
    IsProvisioned tenths to_model machine
      (default_config tenths)
      new
      (provision_if_ready tenths to_model new machine (default_config tenths))
provision_if_ready-IsProvisioned_example =
    provision_if_ready-IsProvisioned tenths to_model machine (default_config tenths) new
