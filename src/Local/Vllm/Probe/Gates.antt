-- ===== src/Local/Vllm/Probe/Gates.antt =====
-- When the probe finds a machine ready.
use Prim.Native.String.{String}
use rakka_inference.Base.{
  Bool-cases, Option, Option-cases, Result, Result-cases, err, false, inl, inr, none, ok, refl,
  some, subst, ℕ, ◌>>=◌, ◌>>◌, ◌≡◌, ◌≢◌, ◌⊎◌,
}
use rakka_inference.Local.Vllm.{Sizes}
use rakka_inference.Local.Vllm.Probe.{
  HfCache, Machine, ProbeResult, cache_gate, discover_token, disk_gate, free_bytes, gpu_gate,
  merged, probe, python_gate, ready, resolve, token_gate, vllm_gate, vram_gate,
}

module _ (sz : Sizes) (machine : Machine sz.F) (model_id : String) (min_vram min_disk : sz.F)
    (suggest : Option String) where
  open sz use {F, lt_float, gigabytes}

  -- All that the probe asks for.
  pub record Passes (vram : F) (cache : HfCache) : Type 0 where
    pub resolved : resolve machine ≡ ok cache
    pub has_gpu : machine.gpu ≡ ok vram
    pub enough_vram : lt_float vram min_vram ≡ false
    pub has_python : machine.python ≡ ok tt
    pub has_vllm : (version : String) × (machine.vllm ≡ ok version)
    pub has_token : (token : String) × (discover_token machine cache ≡ ok (some token))
    pub enough_disk :
        (free : ℕ)
        → free_bytes machine cache ≡ some free
        → lt_float (gigabytes free) min_disk ≡ false

  -- A gate that ends the probe does not find the machine ready.
  IsNo : {A : Type 0} → Result A (ProbeResult F) → Type 0
  IsNo g = (r : ProbeResult F) × (g ≡ err r) × ((v : F) (c : HfCache) → r ≢ ready v c)

  -- A gate is open exactly where `P` holds.
  abbrev Decides : Result (Unit {0}) (ProbeResult F) → Type 0 → Type 0
  Decides g P = ((g ≡ ok tt) × P) ⊎ (IsNo g × ¬ P)

  Decides-then :
      (g h : Result (Unit {0}) (ProbeResult F)) (P Q : Type 0)
      → Decides g P
      → Decides h Q
      → Decides (g >> h) (P × Q)
  unfolding IsNo
  Decides-then g h P Q (inl (e, p)) (inl (e', q)) = inl (rw (e, e') refl, (p, q))
  Decides-then g h P Q (inl (e, p)) (inr ((r, e', no_r), n)) =
      inr ((r, rw (e, e') refl, no_r), λ both. n both.1)
  Decides-then g h P Q (inr ((r, e, no_r), n)) d = inr ((r, rw e refl, no_r), λ both. n both.0)

  disk_gate-Decides :
      (cache : HfCache)
      → Decides (disk_gate sz machine model_id cache min_disk) (
          (free : ℕ)
          → free_bytes machine cache ≡ some free
          → lt_float (gigabytes free) min_disk ≡ false)
  unfolding disk_gate IsNo
  disk_gate-Decides cache = elim (Option-cases (free_bytes machine cache)) [
    | inl unknown ↦ rw (unknown, disk_gate) (inl (refl, λ free e. cc))
    | inr (free, e) ↦ elim (Bool-cases (lt_float (gigabytes free) min_disk)) [
      | inl less ↦
          rw (e, disk_gate, less)
            (inr ((_, refl, λ v c. λ h. cc), λ enough. cc (enough free refl, less)))
      | inr enough ↦
          rw (e, disk_gate, enough)
            (inl (
              refl,
              λ free' e'.
                  subst
                    (λ o. elim o [ none ↦ Unit | some n ↦ lt_float (gigabytes n) min_disk ≡ false ])
                    e' enough,
            ))
    ]
  ]

  token_gate-Decides :
      (cache : HfCache)
      → Decides
          (token_gate sz machine model_id cache)
          ((token : String) × (discover_token machine cache ≡ ok (some token)))
  unfolding token_gate IsNo
  token_gate-Decides cache = elim (Result-cases (discover_token machine cache)) [
    | inr (x, e) ↦ rw (e, token_gate) (inr ((_, refl, λ v c. λ h. cc), λ (t, h). cc))
    | inl (none, e) ↦ rw (e, token_gate) (inr ((_, refl, λ v c. λ h. cc), λ (t, h). cc))
    | inl (some token, e) ↦ rw (e, token_gate) (inl (refl, (token, refl)))
  ]

  vllm_gate-Decides :
      Decides (vllm_gate sz machine model_id) ((version : String) × (machine.vllm ≡ ok version))
  unfolding vllm_gate IsNo
  vllm_gate-Decides = elim (Result-cases machine.vllm) [
    | inr (x, e) ↦ rw (e, vllm_gate) (inr ((_, refl, λ v c. λ h. cc), λ (t, h). cc))
    | inl (version, e) ↦ rw (e, vllm_gate) (inl (refl, (version, refl)))
  ]

  python_gate-Decides : Decides (python_gate sz machine model_id) (machine.python ≡ ok tt)
  unfolding python_gate IsNo
  python_gate-Decides = elim (Result-cases machine.python) [
    | inr (x, e) ↦ rw (e, python_gate) (inr ((_, refl, λ v c. λ h. cc), λ h. cc))
    | inl (u, e) ↦ rw (e, python_gate) (inl (refl, refl))
  ]

  vram_gate-Decides :
      (vram : F)
      → Decides
          (vram_gate sz machine model_id vram min_vram suggest)
          (lt_float vram min_vram ≡ false)
  unfolding vram_gate IsNo
  vram_gate-Decides vram = elim (Bool-cases (lt_float vram min_vram)) [
    | inl less ↦ rw less (inr ((_, refl, λ v c. λ h. cc), λ h. cc))
    | inr enough ↦ rw enough (inl (refl, refl))
  ]

  cache_gate-cases :
      ((cache : HfCache) × (cache_gate sz machine model_id ≡ ok cache)
        × (resolve machine ≡ ok cache))
      ⊎ (IsNo (cache_gate sz machine model_id) × ((cache : HfCache) → resolve machine ≢ ok cache))
  unfolding cache_gate IsNo
  cache_gate-cases = elim (Result-cases (resolve machine)) [
    | inr (x, e) ↦ rw (e, cache_gate) (inr ((_, refl, λ v c. λ h. cc), λ c. λ h. cc))
    | inl (cache, e) ↦ rw (e, cache_gate) (inl (cache, refl, refl))
  ]

  gpu_gate-cases :
      ((vram : F) × (gpu_gate sz machine model_id ≡ ok vram) × (machine.gpu ≡ ok vram))
      ⊎ (IsNo (gpu_gate sz machine model_id) × ((vram : F) → machine.gpu ≢ ok vram))
  unfolding gpu_gate IsNo
  gpu_gate-cases = elim (Result-cases machine.gpu) [
    | inr (x, e) ↦ rw (e, gpu_gate) (inr ((_, refl, λ v c. λ h. cc), λ v. λ h. cc))
    | inl (vram, e) ↦ rw (e, gpu_gate) (inl (vram, refl, refl))
  ]

  gates : F → HfCache → Result (Unit {0}) (ProbeResult F)
  gates vram cache =
      vram_gate sz machine model_id vram min_vram suggest
      >> (python_gate sz machine model_id
          >> (vllm_gate sz machine model_id
              >> (token_gate sz machine model_id cache
                  >> disk_gate sz machine model_id cache min_disk)))

  gates-Decides :
      (vram : F) (cache : HfCache)
      → Decides (gates vram cache) (
          (lt_float vram min_vram ≡ false)
          × ((machine.python ≡ ok tt)
              × (((version : String) × (machine.vllm ≡ ok version))
                  × (((token : String) × (discover_token machine cache ≡ ok (some token)))
                      × ((free : ℕ)
                          → free_bytes machine cache ≡ some free
                          → lt_float (gigabytes free) min_disk ≡ false)))))
  unfolding gates
  gates-Decides vram cache = Decides-then _ _ _ _ (vram_gate-Decides vram) (
      Decides-then _ _ _ _ python_gate-Decides (
        Decides-then _ _ _ _ vllm_gate-Decides
          (Decides-then _ _ _ _ (token_gate-Decides cache) (disk_gate-Decides cache))))

  chain :
      {A : Type 0} (a b c d e : Result (Unit {0}) (ProbeResult F)) (k : Result A (ProbeResult F))
      → (a >> (b >> (c >> (d >> (e >> k))))) ≡ ((a >> (b >> (c >> (d >> e)))) >> k)
  chain (err r) b c d e k = refl
  chain (ok u) (err r) c d e k = refl
  chain (ok u) (ok v) (err r) d e k = refl
  chain (ok u) (ok v) (ok w) (err r) e k = refl
  chain (ok u) (ok v) (ok w) (ok x) e k = refl

  -- The probe in three steps.
  steps : Result (ProbeResult F) (ProbeResult F)
  steps = cache_gate sz machine model_id >>= λ cache.
      gpu_gate sz machine model_id >>= λ vram. gates vram cache >> ok (ready vram cache)

  probe-steps :
      probe sz machine model_id min_vram min_disk suggest ≡ merged sz machine model_id steps
  unfolding probe gates steps
  probe-steps = λ i. merged sz machine model_id (
      cache_gate sz machine model_id >>= λ cache. gpu_gate sz machine model_id >>= λ vram.
      chain (vram_gate sz machine model_id vram min_vram suggest) (python_gate sz machine model_id)
        (vllm_gate sz machine model_id) (token_gate sz machine model_id cache)
        (disk_gate sz machine model_id cache min_disk) (ok (ready vram cache)) i)

  -- The probe finds a machine ready, and with what, or it does not and the machine lacks something.
  abbrev Verdict : ProbeResult F → Type 0
  Verdict r =
      ((vram : F) × (cache : HfCache) × (r ≡ ready vram cache) × Passes vram cache)
      ⊎ (((vram : F) (cache : HfCache) → r ≢ ready vram cache)
          × ((vram : F) (cache : HfCache) → ¬ Passes vram cache))

  steps-Verdict : Verdict (merged sz machine model_id steps)
  unfolding steps merged IsNo
  steps-Verdict = elim cache_gate-cases [
    | inr ((r, e, no_r), unresolved) ↦ rw e (inr (no_r, λ v c. λ p. unresolved c p.resolved))
    | inl (cache, e, resolved) ↦ elim gpu_gate-cases [
      | inr ((r, e', no_r), no_gpu) ↦ rw (e, e') (inr (no_r, λ v c. λ p. no_gpu v p.has_gpu))
      | inl (vram, e', has_gpu) ↦ elim (gates-Decides vram cache) [
        | inl (open_gates, (enough, (python, (vllm, (token, disk))))) ↦
            rw (e, e', open_gates)
              (inl (
                vram,
                cache,
                refl,
                record {
                  resolved = resolved;
                  has_gpu = has_gpu;
                  enough_vram = enough;
                  has_python = python;
                  has_vllm = vllm;
                  has_token = token;
                  enough_disk = disk;
                },
              ))
        | inr ((r, e'', no_r), lacks) ↦
            rw (e, e', e'')
              (inr (
                no_r,
                λ v c. λ p.
                    let same_vram : v ≡ vram = cc (p.has_gpu, has_gpu) in
                    let same_cache : c ≡ cache = cc (p.resolved, resolved) in
                    lacks (
                      subst (λ x. lt_float x min_vram ≡ false) same_vram p.enough_vram,
                      (
                        p.has_python,
                        (
                          p.has_vllm,
                          (
                            subst
                                (λ x.
                                  (token : String) × (discover_token machine x ≡ ok (some token)))
                                same_cache p.has_token,
                            subst
                                (λ x.
                                  (free : ℕ)
                                  → free_bytes machine x ≡ some free
                                  → lt_float (gigabytes free) min_disk ≡ false)
                                same_cache p.enough_disk,
                          ),
                        ),
                      ),
                    ),
              ))
      ]
    ]
  ]

  pub probe-Verdict : Verdict (probe sz machine model_id min_vram min_disk suggest)
  probe-Verdict = rw probe-steps steps-Verdict
