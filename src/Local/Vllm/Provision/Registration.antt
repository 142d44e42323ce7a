-- ===== src/Local/Vllm/Provision/Registration.antt =====
-- When the default deployment is registered.
use Prim.Native.String.{String}
use rakka_inference.Base.Maps
use rakka_inference.Base.{Result, Result-cases, ap, err, inl, inr, ok, refl, ◌≡◌, ◌≢◌, ◌⊎◌}
use rakka_inference.Core.Error.{InferenceError}
use rakka_inference.Core.Deployment.{DeploymentValidationError, validate}
use rakka_inference.Runtime.Manager.{DeploymentManagerActor, applied, handle, pending}
use rakka_inference.Local.Vllm.{
  GemmaDefaults, Sizes, fallback_variant, min_disk_gb, min_vram_gb, validate_variant,
}
use rakka_inference.Local.Vllm.Probe.{HfCache, Machine, ProbeResult, error, probe}
use rakka_inference.Local.Vllm.Probe.Gates.{Passes, probe-Verdict}
use rakka_inference.Local.Vllm.Provision.{
  ProvisionOutcome, VllmConfig, deployment_of, on_probe, provision_if_ready, registered, unwrap_or,
  vllm_config,
}

module _ (sz : Sizes) {Json : Type 0} (to_value : VllmConfig sz.F → Result Json String)
    (machine : Machine sz.F) (cfg : GemmaDefaults sz) where
  open sz use {F, gb_4_5, gb_7}

  -- Everything that a registration needs.
  pub record CanProvision (vram : F) (cache : HfCache) (body : Json) : Type 0 where
    pub supported : validate_variant cfg.model_id ≡ ok tt
    pub passes :
        Passes sz machine cfg.model_id
          (unwrap_or sz to_value (min_vram_gb sz cfg.model_id) gb_4_5)
          (unwrap_or sz to_value (min_disk_gb sz cfg.model_id) gb_7)
          (fallback_variant cfg.model_id)
          vram
          cache
    pub serialised : to_value (vllm_config sz to_value cfg) ≡ ok body
    pub valid : validate (deployment_of sz to_value cfg body) ≡ ok tt

  -- The deployment is registered as pending, and everything was there; or nothing is registered, the
  -- outcome says so, and something was missing.
  abbrev pub IsProvisioned :
      DeploymentManagerActor Json F
      → DeploymentManagerActor Json F × Result ProvisionOutcome InferenceError
      → Type 0
  IsProvisioned manager r =
      ((vram : F) × (cache : HfCache) × (body : Json) × CanProvision vram cache body
        × (r ≡ (
          record {
            records =
                Maps.insert manager.records cfg.deployment_name
                  (record { deployment = deployment_of sz to_value cfg body; state = pending });
          },
          ok (ProvisionOutcome.ready cfg.deployment_name),
        )))
      ⊎ ((r.0 ≡ manager)
          × ((name : String) → r.1 ≢ ok (ProvisionOutcome.ready name))
          × ((vram : F) (cache : HfCache) (body : Json) → ¬ CanProvision vram cache body))

  registered-ok :
      (manager : DeploymentManagerActor Json F) (body : Json)
      → validate (deployment_of sz to_value cfg body) ≡ ok tt
      → registered sz to_value manager cfg (ok body) ≡ (
        record {
          records =
              Maps.insert manager.records cfg.deployment_name
                (record { deployment = deployment_of sz to_value cfg body; state = pending });
        },
        ok (ProvisionOutcome.ready cfg.deployment_name),
      )
  unfolding registered handle applied
  registered-ok manager body e = rw e refl

  -- Nothing is registered, and the outcome says so.
  abbrev IsRefused :
      DeploymentManagerActor Json F
      → DeploymentManagerActor Json F × Result ProvisionOutcome InferenceError
      → Type 0
  IsRefused manager r = (r.0 ≡ manager) × ((name : String) → r.1 ≢ ok (ProvisionOutcome.ready name))

  registered-err :
      (manager : DeploymentManagerActor Json F) (body : Json) (x : DeploymentValidationError)
      → validate (deployment_of sz to_value cfg body) ≡ err x
      → IsRefused manager (registered sz to_value manager cfg (ok body))
  unfolding registered handle applied
  registered-err manager body x e = rw e (refl, λ name. λ h. cc)

  unserialised :
      (manager : DeploymentManagerActor Json F) (x : String)
      → IsRefused manager (registered sz to_value manager cfg (err x))
  unfolding registered
  unserialised manager x = (refl, λ name. λ h. cc)

  on_probe-IsRefused :
      (manager : DeploymentManagerActor Json F) (r : ProbeResult F)
      → ((vram : F) (cache : HfCache) → r ≢ ProbeResult.ready vram cache)
      → IsRefused manager (on_probe sz to_value manager cfg r)
  unfolding on_probe
  on_probe-IsRefused manager (ProbeResult.ready vram cache) never = absurd (never vram cache refl)
  on_probe-IsRefused manager (ProbeResult.skipped reason hint) never = (refl, λ name. λ h. cc)
  on_probe-IsRefused manager (error e) never = (refl, λ name. λ h. cc)

  on_ready :
      (manager : DeploymentManagerActor Json F) (vram : F) (cache : HfCache)
      → ((body : Json)
          → to_value (vllm_config sz to_value cfg) ≡ ok body
          → validate (deployment_of sz to_value cfg body) ≡ ok tt
          → CanProvision vram cache body)
      → IsProvisioned manager
          (registered sz to_value manager cfg (to_value (vllm_config sz to_value cfg)))
  on_ready manager vram cache can = elim (Result-cases (to_value (vllm_config sz to_value cfg))) [
    | inr (x, e) ↦
        let (kept, unready) = unserialised manager x in
        rw e (inr (kept, unready, λ v c b. λ p. cc (p.serialised, e)))
    | inl (body, e) ↦ elim (Result-cases (validate (deployment_of sz to_value cfg body))) [
      | inl (u, e') ↦ rw e (inl (vram, cache, body, can body e e', registered-ok manager body e'))
      | inr (x, e') ↦
          let (kept, unready) = registered-err manager body x e' in
          rw e (
            inr (
              kept,
              unready,
              λ v c b. λ p.
                  let same : b ≡ body = cc (p.serialised, e) in
                  cc (p.valid, ap (λ j. validate (deployment_of sz to_value cfg j)) same, e'),
            ))
    ]
  ]

  abbrev probed : ProbeResult F
  probed =
      probe sz machine cfg.model_id (unwrap_or sz to_value (min_vram_gb sz cfg.model_id) gb_4_5)
        (unwrap_or sz to_value (min_disk_gb sz cfg.model_id) gb_7) (fallback_variant cfg.model_id)

  by_probe :
      (manager : DeploymentManagerActor Json F)
      → validate_variant cfg.model_id ≡ ok tt
      → provision_if_ready sz to_value manager machine cfg ≡ on_probe sz to_value manager cfg probed
  unfolding provision_if_ready
  by_probe manager e = rw (e, provision_if_ready) refl

  unsupported :
      (manager : DeploymentManagerActor Json F) (x : InferenceError)
      → validate_variant cfg.model_id ≡ err x
      → provision_if_ready sz to_value manager machine cfg ≡ (manager, err x)
  unfolding provision_if_ready
  unsupported manager x e = rw (e, provision_if_ready) refl

  -- The default deployment is registered, as pending, exactly where its model is supported, the machine
  -- passes every gate of the probe, its configuration is serialised and the deployment is valid; in
  -- every other case the manager stays what it was, and the outcome is not ready.
  pub provision_if_ready-IsProvisioned :
      (manager : DeploymentManagerActor Json F)
      → IsProvisioned manager (provision_if_ready sz to_value manager machine cfg)
  unfolding on_probe
  provision_if_ready-IsProvisioned manager = elim (Result-cases (validate_variant cfg.model_id)) [
    | inr (x, e) ↦
        rw (unsupported manager x e)
          (inr (refl, λ name. λ h. cc, λ v c b. λ p. cc (p.supported, e)))
    | inl (u, e) ↦
        elim (probe-Verdict sz machine cfg.model_id
          (unwrap_or sz to_value (min_vram_gb sz cfg.model_id) gb_4_5)
          (unwrap_or sz to_value (min_disk_gb sz cfg.model_id) gb_7)
          (fallback_variant cfg.model_id)) [
            | inl (vram, cache, e', passes) ↦
                rw (by_probe manager e, e')
                  (on_ready manager vram cache (λ body s v. record {
                    supported = e;
                    passes = passes;
                    serialised = s;
                    valid = v;
                  }))
            | inr (never, lacks) ↦
                let (kept, unready) = on_probe-IsRefused manager _ never in
                rw (by_probe manager e) (inr (kept, unready, λ v c b. λ p. lacks v c p.passes))
          ]
  ]
