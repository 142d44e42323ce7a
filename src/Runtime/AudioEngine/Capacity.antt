-- ===== src/Runtime/AudioEngine/Capacity.antt =====
-- How many requests run at once, and which are refused.
use rakka_inference.Base.{
  Bool, List, Option, [], arith, err, false, get_elem?, if◌then◌else◌, leb, length, length-erase_at,
  max, none, ok, refl, some, subst, sym, true, ℕ, ◌+◌, ◌<◌, ◌^◌, ◌∙◌, ◌∷◌, ◌≡◌, ◌≤◌,
}
use rakka_inference.Core.Duration.{u32}
use rakka_inference.Core.Error.{backpressure}
use rakka_inference.Core.Runtime.{RuntimeKind}
use rakka_inference.Runtime.AudioEngine.{
  AudioEngineConfig, AudioEngineCoreActor, AudioEngineMsg, Event, RunnerCell, a2_f, add_audio2_face,
  add_transcribe, dispatched, end_task, handle, message, new_audio2_face, new_stt,
  reject_modality_mismatch, run, spawned, step, stt, task_end, try_admit,
}
use Prim.Native.String.{String}

-- What a message asks for that the runner is not.
abbrev is_other : RunnerCell → AudioEngineMsg → ℕ
is_other stt (add_transcribe _) = 0
is_other stt (add_audio2_face _) = 1
is_other a2_f (add_transcribe _) = 1
is_other a2_f (add_audio2_face _) = 0

abbrev requests_in : List Event → ℕ
requests_in [] = 0
requests_in (message _ ∷ es) = 1 + requests_in es
requests_in (task_end _ ∷ es) = requests_in es

abbrev others_in : RunnerCell → List Event → ℕ
others_in cell [] = 0
others_in cell (message msg ∷ es) = is_other cell msg + others_in cell es
others_in cell (task_end _ ∷ es) = others_in cell es

abbrev pub new_of : RunnerCell → AudioEngineConfig → AudioEngineCoreActor
new_of stt config = new_stt config
new_of a2_f config = new_audio2_face config

-- After some answers and some refusals.
record Inv (cell : RunnerCell) (max answered refused : ℕ) (a : AudioEngineCoreActor) : Type 0 where
  same_runner : a.runner ≡ cell
  same_bound : a.config.max_concurrent ≡ max
  counted : a.in_flight ≡ length a.tasks
  within : length a.tasks ≤ max
  all_answered : length a.answers ≡ answered
  all_refused : length a.refusals ≡ refused

module _ (cell : RunnerCell) (max answered refused : ℕ) where
  spawned-Inv :
      (request : String) (a : AudioEngineCoreActor) (at_bound : Bool)
      → leb a.config.max_concurrent a.in_flight ≡ at_bound
      → max < 2 ^ 32
      → Inv cell max answered refused a
      → Inv cell max (1 + answered) refused (
          spawned request (
            if at_bound
            then (a, err (backpressure "audio engine at capacity"))
            else (record a { in_flight = u32 (a.in_flight + 1) }, ok tt)))
  unfolding spawned
  spawned-Inv request a true e l v =
      let n = v.all_answered in
      record {
        same_runner = v.same_runner;
        same_bound = v.same_bound;
        counted = v.counted;
        within = v.within;
        all_answered = omega arith;
        all_refused = v.all_refused;
      }
  spawned-Inv request a false e l v =
      let n = v.all_answered in
      let count = v.counted in
      let few = v.within in
      let bound = v.same_bound in
      let below : a.in_flight < a.config.max_concurrent = ground arith in
      record {
        same_runner = v.same_runner;
        same_bound = bound;
        counted = omega arith;
        within = omega arith;
        all_answered = omega arith;
        all_refused = v.all_refused;
      }

  admitted-Inv :
      (request : String) (a : AudioEngineCoreActor)
      → max < 2 ^ 32
      → Inv cell max answered refused a
      → Inv cell max (1 + answered) refused (spawned request (try_admit a))
  unfolding try_admit
  admitted-Inv request a l v =
      spawned-Inv request a (leb a.config.max_concurrent a.in_flight) refl l v

  mismatch-Inv :
      (request method : String) (runtime : RuntimeKind) (a : AudioEngineCoreActor)
      → Inv cell max answered refused a
      → Inv cell max
          (1 + answered)
          (1 + refused)
          (reject_modality_mismatch a request method runtime)
  unfolding reject_modality_mismatch
  mismatch-Inv request method runtime a v =
      let n = v.all_answered in
      let k = v.all_refused in
      record {
        same_runner = v.same_runner;
        same_bound = v.same_bound;
        counted = v.counted;
        within = v.within;
        all_answered = omega arith;
        all_refused = omega arith;
      }

  end_task-Inv :
      (a : AudioEngineCoreActor) (i : ℕ) (found : Option String)
      → get_elem? a.tasks i ≡ found
      → Inv cell max answered refused a
      → Inv cell max answered refused (end_task a i found)
  unfolding end_task
  end_task-Inv a i none e v = v
  end_task-Inv a i (some request) e v =
      let shorter = length-erase_at a.tasks i request e in
      let count = v.counted in
      let few = v.within in
      record {
        same_runner = v.same_runner;
        same_bound = v.same_bound;
        counted = omega arith;
        within = omega arith;
        all_answered = v.all_answered;
        all_refused = v.all_refused;
      }

recounted :
    (cell : RunnerCell) (max n n' k k' : ℕ) (a : AudioEngineCoreActor)
    → n ≡ n'
    → k ≡ k'
    → Inv cell max n k a
    → Inv cell max n' k' a
recounted cell max n n' k k' a en ek v = record {
  same_runner = v.same_runner;
  same_bound = v.same_bound;
  counted = v.counted;
  within = v.within;
  all_answered = v.all_answered ∙ en;
  all_refused = v.all_refused ∙ ek;
}

dispatched-Inv :
    (cell : RunnerCell) (max answered refused : ℕ) (msg : AudioEngineMsg) (a : AudioEngineCoreActor)
    → max < 2 ^ 32
    → Inv cell max answered refused a
    → Inv cell max (1 + answered) (is_other cell msg + refused) (dispatched cell msg a)
unfolding dispatched
dispatched-Inv stt max n k (add_transcribe r) a l v =
    recounted stt max (1 + n) (1 + n) k (0 + k) _ refl (omega arith)
      (admitted-Inv stt max n k r a l v)
dispatched-Inv stt max n k (add_audio2_face r) a l v = mismatch-Inv stt max n k r _ _ a v
dispatched-Inv a2_f max n k (add_transcribe r) a l v = mismatch-Inv a2_f max n k r _ _ a v
dispatched-Inv a2_f max n k (add_audio2_face r) a l v =
    recounted a2_f max (1 + n) (1 + n) k (0 + k) _ refl (omega arith)
      (admitted-Inv a2_f max n k r a l v)

handle-Inv :
    (cell : RunnerCell) (max answered refused : ℕ) (msg : AudioEngineMsg) (a : AudioEngineCoreActor)
    → max < 2 ^ 32
    → Inv cell max answered refused a
    → Inv cell max (1 + answered) (is_other cell msg + refused) (handle a msg)
unfolding handle
handle-Inv cell max n k msg a l v =
    subst (λ c. Inv cell max (1 + n) (is_other cell msg + k) (dispatched c msg a))
      (sym v.same_runner) (dispatched-Inv cell max n k msg a l v)

run-Inv :
    (cell : RunnerCell) (max answered refused : ℕ) (es : List Event) (a : AudioEngineCoreActor)
    → max < 2 ^ 32
    → Inv cell max answered refused a
    → Inv cell max (requests_in es + answered) (others_in cell es + refused) (run a es)
unfolding run step
run-Inv cell max n k [] a l v =
    recounted cell max n (0 + n) k (0 + k) a (omega arith) (omega arith) v
run-Inv cell max n k (message msg ∷ es) a l v =
    recounted cell max (requests_in es + (1 + n)) _ (others_in cell es + (is_other cell msg + k)) _
      _ (omega arith) (omega arith)
      (run-Inv cell max (1 + n) (is_other cell msg + k) es (handle a msg) l
        (handle-Inv cell max n k msg a l v))
run-Inv cell max n k (task_end i ∷ es) a l v =
    run-Inv cell max n k es _ l (end_task-Inv cell max n k a i (get_elem? a.tasks i) refl v)

new_of-Inv :
    (cell : RunnerCell) (config : AudioEngineConfig)
    → Inv cell config.max_concurrent 0 0 (new_of cell config)
unfolding new_stt new_audio2_face
new_of-Inv stt config = record {
  same_runner = refl;
  same_bound = refl;
  counted = refl;
  within = omega arith;
  all_answered = refl;
  all_refused = refl;
}
new_of-Inv a2_f config = record {
  same_runner = refl;
  same_bound = refl;
  counted = refl;
  within = omega arith;
  all_answered = refl;
  all_refused = refl;
}

-- After any interleaving of requests and ends of tasks, at most `max_concurrent` tasks run (a `u32`) and
-- the count of those in flight is exact; every request has been answered once, and exactly those for the
-- other kind of runner, which take no slot, have been refused on their output.
run_accounts :
    (cell : RunnerCell) (config : AudioEngineConfig) (es : List Event)
    → config.max_concurrent < 2 ^ 32
    → let a = run (new_of cell config) es in
      (length a.tasks ≤ config.max_concurrent)
      × (a.in_flight ≡ length a.tasks)
      × (length a.answers ≡ requests_in es)
      × (length a.refusals ≡ others_in cell es)
run_accounts cell config es l =
    let v =
      run-Inv cell config.max_concurrent 0 0 es (new_of cell config) l (new_of-Inv cell config) in
    let n = v.all_answered in
    let k = v.all_refused in (v.within, v.counted, omega arith, omega arith)
