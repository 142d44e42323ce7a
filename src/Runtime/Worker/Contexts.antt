-- ===== src/Runtime/Worker/Contexts.antt =====
-- Which context gets the requests.
use rakka_inference.Base.{
  All, Bool, List, Option, [], ap, arith, false, if◌then◌else◌, inl, inr, length, none, refl, some,
  subst, true, ℕ, ◌+◌, ◌<◌, ◌^◌, ◌∷◌, ◌≡◌, ◌≤◌, ◌⊎◌,
}
use rakka_inference.Core.Duration.{u64}
use rakka_inference.Runtime.Worker.{
  Event, WorkerActor, context_poisoned, execute, execute_request, executed, handle, new, poisoned,
  pre_start, rebuild_session, rebuilt, run, spawn_child,
}
use Prim.Native.String.{String}

-- The contexts that are stopped are older than the child, if there is one.
abbrev AllOlder : ℕ → List ℕ → Option ℕ → Type 0
AllOlder seq stopped none = All (λ d. d ≤ seq) stopped
AllOlder seq stopped (some c) = (c ≤ seq) × All (λ d. d < c) stopped

-- After at most `n` events.
record Inv (n : ℕ) (w : WorkerActor) : Type 0 where
  few : w.parent_to_child_seq ≤ n
  older : AllOlder w.parent_to_child_seq w.stopped w.child

All-below : (a b : ℕ) (l : List ℕ) → a < b → All (λ d. d ≤ a) l → All (λ d. d < b) l
All-below a b [] h k = tt
All-below a b (x ∷ xs) h k = (omega arith, All-below a b xs h k.1)

All-upto : (a b : ℕ) (l : List ℕ) → a ≤ b → All (λ d. d < a) l → All (λ d. d ≤ b) l
All-upto a b [] h k = tt
All-upto a b (x ∷ xs) h k = (omega arith, All-upto a b xs h k.1)

All-above : (a b : ℕ) (l : List ℕ) → a ≤ b → All (λ d. d ≤ a) l → All (λ d. d ≤ b) l
All-above a b [] h k = tt
All-above a b (x ∷ xs) h k = (omega arith, All-above a b xs h k.1)

AllOlder-upto :
    (seq : ℕ) (stopped : List ℕ) (o : Option ℕ)
    → AllOlder seq stopped o
    → All (λ d. d ≤ seq) stopped
AllOlder-upto seq stopped none h = h
AllOlder-upto seq stopped (some c) h = All-upto c seq stopped h.0 h.1

-- A new name, with or without a new child.
spawned_older :
    (seq : ℕ) (stopped : List ℕ) (o : Option ℕ) (spawns : Bool)
    → AllOlder seq stopped o
    → AllOlder (seq + 1) stopped (if spawns then some (seq + 1) else o)
spawned_older seq stopped o true h =
    (omega arith, All-below seq (seq + 1) stopped (omega arith) (AllOlder-upto seq stopped o h))
spawned_older seq stopped none false h = All-above seq (seq + 1) stopped (omega arith) h
spawned_older seq stopped (some c) false h = (omega arith, h.1)

spawn_child-Inv :
    (n : ℕ) (w : WorkerActor) (spawns : Bool)
    → n + 1 < 2 ^ 64
    → Inv n w
    → Inv (n + 1) (spawn_child w spawns)
unfolding spawn_child
spawn_child-Inv n w spawns l v =
    let f = v.few in
    let next : w.parent_to_child_seq + 1 ≡ u64 (w.parent_to_child_seq + 1) = omega arith in
    record {
      few = omega arith;
      older =
          subst (λ s. AllOlder s w.stopped (if spawns then some s else w.child)) next
            (spawned_older w.parent_to_child_seq w.stopped w.child spawns v.older);
    }

poisoned-Inv :
    (n : ℕ) (w : WorkerActor) (o : Option ℕ) → w.child ≡ o → Inv n w → Inv n (poisoned w o)
unfolding poisoned
poisoned-Inv n w none e v = v
poisoned-Inv n w (some c) e v =
    let (small, old) = subst (AllOlder w.parent_to_child_seq w.stopped) e v.older in
    record { few = v.few; older = (small, All-upto c w.parent_to_child_seq w.stopped small old) }

executed-Inv :
    (n : ℕ) (w : WorkerActor) (request : String) (o : Option ℕ)
    → Inv n w
    → Inv n (executed w request o)
unfolding executed
executed-Inv n w request none v = record { few = v.few; older = v.older }
executed-Inv n w request (some c) v = record { few = v.few; older = v.older }

rebuilt-Inv :
    (n : ℕ) (w : WorkerActor) (request : String) (o : Option ℕ)
    → Inv n w
    → Inv n (rebuilt w request o)
unfolding rebuilt
rebuilt-Inv n w request none v = record { few = v.few; older = v.older }
rebuilt-Inv n w request (some c) v = record { few = v.few; older = v.older }

later : (n : ℕ) (w : WorkerActor) → Inv n w → Inv (n + 1) w
later n w v = let f = v.few in record { few = omega arith; older = v.older }

handle-Inv :
    (n : ℕ) (w : WorkerActor) (e : Event) → n + 1 < 2 ^ 64 → Inv n w → Inv (n + 1) (handle w e)
unfolding handle
handle-Inv n w (pre_start spawns) l v = spawn_child-Inv n w spawns l v
handle-Inv n w (execute_request request) l v = later n _ (executed-Inv n w request w.child v)
handle-Inv n w (context_poisoned spawns) l v =
    spawn_child-Inv n (poisoned w w.child) spawns l (poisoned-Inv n w w.child refl v)
handle-Inv n w (rebuild_session request) l v = later n _ (rebuilt-Inv n w request w.child v)

run-Inv :
    (n : ℕ) (w : WorkerActor) (es : List Event)
    → n + length es < 2 ^ 64
    → Inv n w
    → Inv (n + length es) (run w es)
unfolding run
run-Inv n w [] l v = let f = v.few in record { few = omega arith; older = v.older }
run-Inv n w (e ∷ es) l v =
    subst (λ k. Inv k (run (handle w e) es)) (omega arith)
      (run-Inv (n + 1) (handle w e) es (omega arith) (handle-Inv n w e (omega arith) v))

-- A request is dropped where there is no child, and is told to a child that is newer than all that are
-- stopped otherwise.
abbrev pub IsPassedOn : WorkerActor → String → WorkerActor → Type 0
IsPassedOn w request w' =
    ((w.child ≡ none) × (w'.told ≡ w.told) × (w'.dropped ≡ request ∷ w.dropped))
    ⊎ ((c : ℕ) × (w.child ≡ some c)
        × (w'.told ≡ (c, execute request) ∷ w.told)
        × (w'.dropped ≡ w.dropped)
        × All (λ d. d < c) w.stopped)

executed-IsPassedOn :
    (n : ℕ) (w : WorkerActor) (request : String) (o : Option ℕ)
    → w.child ≡ o
    → Inv n w
    → IsPassedOn w request (executed w request w.child)
unfolding executed
executed-IsPassedOn n w request none e v =
    inl (e, ap (λ x. (executed w request x).told) e, ap (λ x. (executed w request x).dropped) e)
executed-IsPassedOn n w request (some c) e v = inr (
  c,
  e,
  ap (λ x. (executed w request x).told) e,
  ap (λ x. (executed w request x).dropped) e,
  (subst (AllOlder w.parent_to_child_seq w.stopped) e v.older).1,
)

-- After any events (fewer than 2 ^ 64), the next request is told to a context that is newer than every
-- one that has been stopped, or is dropped, with nobody told, where there is none.
pub next_request :
    (es : List Event) (request : String)
    → length es < 2 ^ 64
    → IsPassedOn (run new es) request (handle (run new es) (execute_request request))
unfolding handle new
next_request es request l =
    executed-IsPassedOn (0 + length es) (run new es) request (run new es).child refl
      (run-Inv 0 new es (omega arith) (record { few = omega arith; older = tt }))
