-- ===== src/Ws/Frame/Preservation.antt =====
-- Merging changes neither the bytes nor the other frames, nor their order.
use rakka_inference.Base.{
  Bool-cases, List, [], ap, inl, inr, leb, length, ltb, map, refl, sym, ℕ, ◌++◌, ◌+◌, ◌==◌, ◌||◌,
  ◌∙◌, ◌∷◌, ◌≡◌,
}
use rakka_inference.Ws.Frame.{
  Frame, binary, close, coalesce_binary, flush, merge, merge_all, ping, pong, text,
}
use mathlib.Core.List.{append_assoc, append-nil, map-append}

ruleset lists = (append_assoc, append-nil, map-append)

-- A frame for each byte.
abbrev bytes : List ℕ → List Frame
bytes b = map (λ x. binary (x ∷ [])) b

-- The frames with every binary payload cut into its bytes.
pub explode : List Frame → List Frame
explode [] = []
explode (binary b ∷ fs) = bytes b ++ explode fs
explode (f ∷ fs) = f ∷ explode fs

explode-append : (xs ys : List Frame) → explode (xs ++ ys) ≡ explode xs ++ explode ys
unfolding explode
explode-append [] ys = refl
explode-append (binary b ∷ fs) ys = simp (lists, explode-append fs ys) refl
explode-append (text t ∷ fs) ys = rw (explode-append fs ys) refl
explode-append (ping p ∷ fs) ys = rw (explode-append fs ys) refl
explode-append (pong p ∷ fs) ys = rw (explode-append fs ys) refl
explode-append (close c r ∷ fs) ys = rw (explode-append fs ys) refl

explode-flush :
    (buf : List ℕ) (out : List Frame) → explode (flush buf out) ≡ explode out ++ bytes buf
unfolding explode flush
explode-flush [] out = simp lists refl
explode-flush (b ∷ bs) out = simp (lists, explode-append) refl

-- What the loop has taken in, is in the output and the buffer.
explode-merge :
    (max_bytes : ℕ) (buf : List ℕ) (out : List Frame) (f : Frame)
    → let s = merge max_bytes buf out f in
      explode s.1 ++ bytes s.0 ≡ explode out ++ (bytes buf ++ explode (f ∷ []))
unfolding explode merge
explode-merge max_bytes buf out (binary b) = elim (Bool-cases (leb max_bytes (length b))) [
  | inl l ↦ rw (l, merge) (simp (lists, explode-append, explode-flush) refl)
  | inr l ↦ elim (Bool-cases (ltb max_bytes (length buf + length b))) [
    | inl o ↦ rw (l, o, merge) (simp (lists, explode-flush) refl)
    | inr o ↦ rw (l, o, merge) (simp lists refl)
  ]
]
explode-merge max_bytes buf out (text t) = simp (lists, explode-append, explode-flush) refl
explode-merge max_bytes buf out (ping p) = simp (lists, explode-append, explode-flush) refl
explode-merge max_bytes buf out (pong p) = simp (lists, explode-append, explode-flush) refl
explode-merge max_bytes buf out (close c r) = simp (lists, explode-append, explode-flush) refl

explode-cons : (f : Frame) (fs : List Frame) → explode (f ∷ fs) ≡ explode (f ∷ []) ++ explode fs
explode-cons f fs = explode-append (f ∷ []) fs

explode-merge_all :
    (max_bytes : ℕ) (s : List ℕ × List Frame) (fs : List Frame)
    → explode (merge_all max_bytes s fs) ≡ explode s.1 ++ (bytes s.0 ++ explode fs)
unfolding merge_all explode
explode-merge_all max_bytes s [] = simp (lists, explode-flush) refl
explode-merge_all max_bytes s (f ∷ fs) =
    let ih = explode-merge_all max_bytes (merge max_bytes s.0 s.1 f) fs in
    let step = explode-merge max_bytes s.0 s.1 f in
    let cut = explode-cons f fs in
    ih
    ∙ (sym (append_assoc (explode (merge max_bytes s.0 s.1 f).1) _ _)
        ∙ (ap (λ (l : List Frame). l ++ explode fs) step ∙ simp (lists, cut) refl))

-- Whatever the bound, the bytes of the binary frames and all other frames are those of the input, in
-- the same order: no byte moves across a frame of another kind.
pub explode-coalesce_binary :
    (frames : List Frame) (max_bytes : ℕ)
    → explode (coalesce_binary frames max_bytes) ≡ explode frames
unfolding coalesce_binary explode
explode-coalesce_binary frames max_bytes =
    elim (Bool-cases (max_bytes == 0 || leb (length frames) 1)) [
      | inl small ↦ rw (small, coalesce_binary) refl
      | inr large ↦ rw (large, coalesce_binary) (explode-merge_all max_bytes ([], []) frames)
    ]
