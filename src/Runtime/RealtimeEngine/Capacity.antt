-- ===== src/Runtime/RealtimeEngine/Capacity.antt =====
-- How many sessions there are at once.
use rakka_inference.Base.{
  Bool, Bool-cases, List, Option, Result, [], ap, arith, err, false, get_elem?, if◌then◌else◌, inl,
  inr, leb, length, length-erase_at, length-set, none, ok, refl, some, sym, true, ℕ, ◌+◌, ◌<◌, ◌^◌,
  ◌↔◌, ◌∙◌, ◌∷◌, ◌≡◌, ◌≤◌, ◌⊎◌,
}
use rakka_inference.Core.Duration.{u32}
use rakka_inference.Core.Error.{InferenceError}
use rakka_inference.Runtime.RealtimeEngine.{
  Event, RealtimeEngineConfig, RealtimeEngineCoreActor, Task, answer, arrival, close, end_task, new,
  on_answer, on_close, open_session, opened, opening, relayed, relaying, run, spawned, step,
  try_admit,
}

-- The slot that a panic has lost.
abbrev lost : Bool → ℕ
lost true = 1
lost false = 0

module _ (panics : ℕ → Bool) (config : RealtimeEngineConfig) where
  -- What counts as in flight is the number of the tasks, and one more behind a panic, which only the
  -- capacity of the relay brings about.
  pub record Inv (a : RealtimeEngineCoreActor) : Type 0 where
    pub same_config : a.config ≡ config
    pub counted : a.in_flight ≡ length a.tasks + lost a.panicked
    pub within : a.in_flight ≤ config.max_concurrent
    pub blamed : (a.panicked ≡ false) ⊎ (panics config.outbound_relay_capacity ≡ true)

  relayed-Inv :
      (a : RealtimeEngineCoreActor)
      → a.config ≡ config
      → a.in_flight ≡ length a.tasks + 1
      → a.in_flight ≤ config.max_concurrent
      → a.panicked ≡ false
      → Inv (relayed panics a)
  unfolding relayed
  relayed-Inv a same counted within running =
      elim (Bool-cases (panics a.config.outbound_relay_capacity)) [
        | inl breaks ↦
            rw (breaks, relayed)
              (record {
                same_config = same;
                counted = counted;
                within = within;
                blamed = inr (
                    ap (λ (c : RealtimeEngineConfig). panics c.outbound_relay_capacity) (sym same)
                    ∙ breaks);
              })
        | inr works ↦
            rw (works, relayed)
              (record {
                same_config = same;
                counted = rw running (omega arith);
                within = within;
                blamed = inl running;
              })
      ]

  open_session-Inv :
      (a : RealtimeEngineCoreActor)
      → config.max_concurrent < 2 ^ 32
      → a.panicked ≡ false
      → Inv a
      → Inv (open_session panics a)
  unfolding open_session spawned try_admit
  open_session-Inv a l running v =
      let bound : a.config.max_concurrent ≡ config.max_concurrent =
        ap (λ (c : RealtimeEngineConfig). c.max_concurrent) v.same_config in
      elim (Bool-cases (leb a.config.max_concurrent a.in_flight)) [
        | inl full ↦
            rw (full, open_session, try_admit)
              (record {
                same_config = v.same_config;
                counted = v.counted;
                within = v.within;
                blamed = v.blamed;
              })
        | inr room ↦
            let below : a.in_flight < a.config.max_concurrent = ground arith in
            let exact : a.in_flight ≡ length a.tasks + 0 =
              v.counted ∙ ap (λ b. length a.tasks + lost b) running in
            rw (room, open_session, try_admit)
              (relayed-Inv (record a { in_flight = u32 (a.in_flight + 1) }) v.same_config
                (omega arith) (omega arith) running)
      ]

  end_task-Inv :
      (a : RealtimeEngineCoreActor) (i : ℕ) (t : Task)
      → get_elem? a.tasks i ≡ some t
      → Inv a
      → Inv (end_task a i)
  unfolding end_task
  end_task-Inv a i t e v =
      let shorter = length-erase_at a.tasks i t e in
      record {
        same_config = v.same_config;
        counted = omega (arith, shorter, v.counted);
        within = omega (arith, v.within);
        blamed = v.blamed;
      }

  opened-Inv :
      (a : RealtimeEngineCoreActor) (i : ℕ) (t : Task) (r : Result (Unit {0}) InferenceError)
      → get_elem? a.tasks i ≡ some t
      → Inv a
      → Inv (opened a i r)
  unfolding opened
  opened-Inv a i t (ok _) e v =
      let same = length-set a.tasks i relaying in
      record {
        same_config = v.same_config;
        counted = omega (arith, same, v.counted);
        within = v.within;
        blamed = v.blamed;
      }
  opened-Inv a i t (err x) e v =
      end_task-Inv (record a { answers = err x ∷ a.answers }) i t e
        (record {
          same_config = v.same_config;
          counted = v.counted;
          within = v.within;
          blamed = v.blamed;
        })

  on_answer-Inv :
      (a : RealtimeEngineCoreActor) (i : ℕ) (r : Result (Unit {0}) InferenceError)
      (found : Option Task)
      → get_elem? a.tasks i ≡ found
      → Inv a
      → Inv (on_answer a i r found)
  unfolding on_answer
  on_answer-Inv a i r (some opening) e v = opened-Inv a i opening r e v
  on_answer-Inv a i r (some relaying) e v = v
  on_answer-Inv a i r none e v = v

  on_close-Inv :
      (a : RealtimeEngineCoreActor) (i : ℕ) (found : Option Task)
      → get_elem? a.tasks i ≡ found
      → Inv a
      → Inv (on_close a i found)
  unfolding on_close
  on_close-Inv a i (some relaying) e v = end_task-Inv a i relaying e v
  on_close-Inv a i (some opening) e v = v
  on_close-Inv a i none e v = v

  branch-Inv :
      (b : Bool) {x y : RealtimeEngineCoreActor}
      → Inv x
      → (b ≡ false → Inv y)
      → Inv (if b then x else y)
  branch-Inv true v w = v
  branch-Inv false v w = w refl

  step-Inv :
      (a : RealtimeEngineCoreActor) (e : Event)
      → config.max_concurrent < 2 ^ 32
      → Inv a
      → Inv (step panics a e)
  unfolding step
  step-Inv a arrival l v = branch-Inv a.panicked v (λ running. open_session-Inv a l running v)
  step-Inv a (answer i r) l v = on_answer-Inv a i r (get_elem? a.tasks i) refl v
  step-Inv a (close i) l v = on_close-Inv a i (get_elem? a.tasks i) refl v

  run-Inv :
      (a : RealtimeEngineCoreActor) (es : List Event)
      → config.max_concurrent < 2 ^ 32
      → Inv a
      → Inv (run panics a es)
  unfolding run
  run-Inv a [] l v = v
  run-Inv a (e ∷ es) l v = run-Inv (step panics a e) es l (step-Inv a e l v)

  try_admit_iff :
      (a : RealtimeEngineCoreActor)
      → Inv a
      → a.panicked ≡ false
      → ((try_admit a).1 ≡ ok tt) ↔ (length a.tasks < config.max_concurrent)
  unfolding try_admit
  try_admit_iff a v running =
      let bound : a.config.max_concurrent ≡ config.max_concurrent =
        ap (λ (c : RealtimeEngineConfig). c.max_concurrent) v.same_config in
      let exact : a.in_flight ≡ length a.tasks + 0 =
        v.counted ∙ ap (λ b. length a.tasks + lost b) running in
      elim (Bool-cases (leb a.config.max_concurrent a.in_flight)) [
        | inl full ↦
            let met : a.config.max_concurrent ≤ a.in_flight = ground arith in
            rw (full, try_admit) (λ h. cc, λ h. absurd (omega arith))
        | inr room ↦
            let below : a.in_flight < a.config.max_concurrent = ground arith in
            rw (room, try_admit) (λ h. omega arith, λ h. refl)
      ]

  blame :
      {b : Bool}
      → b ≡ true
      → (b ≡ false) ⊎ (panics config.outbound_relay_capacity ≡ true)
      → panics config.outbound_relay_capacity ≡ true
  blame over (inl running) = absurd (cc)
  blame over (inr breaks) = breaks

  -- After any interleaving of arrivals, answers of the runner and ends of sessions, there are at most
  -- `max_concurrent` sessions, and either the count of those in flight is exact and the next arrival is
  -- admitted exactly when there are fewer (no slot is lost, and none is given twice), or the handler has
  -- panicked, which it does only where tokio refuses the capacity of the relay, and one slot is lost for
  -- good. (The bound is a `u32`.)
  pub run_within_bound :
      (es : List Event)
      → config.max_concurrent < 2 ^ 32
      → let a = run panics (new config) es in
        (length a.tasks ≤ config.max_concurrent)
        × (((a.panicked ≡ false)
              × (a.in_flight ≡ length a.tasks)
              × (((try_admit a).1 ≡ ok tt) ↔ (length a.tasks < config.max_concurrent)))
            ⊎ ((a.panicked ≡ true)
                × (panics config.outbound_relay_capacity ≡ true)
                × (a.in_flight ≡ length a.tasks + 1)))
  unfolding new
  run_within_bound es l =
      let a = run panics (new config) es in
      let v : Inv a =
        run-Inv (new config) es l (record {
          same_config = refl;
          counted = refl;
          within = omega arith;
          blamed = inl refl;
        }) in
      (
        omega (arith, v.within, v.counted),
        elim (Bool-cases a.panicked) [
          | inr running ↦ inl (
            running,
            v.counted ∙ ap (λ b. length a.tasks + lost b) running ∙ omega arith,
            try_admit_iff a v running,
          )
          | inl over ↦
              inr (over, blame over v.blamed, v.counted ∙ ap (λ b. length a.tasks + lost b) over)
        ],
      )
