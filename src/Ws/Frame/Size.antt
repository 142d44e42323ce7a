-- ===== src/Ws/Frame/Size.antt =====
-- The size and the number of the frames that merging makes.
use rakka_inference.Base.{
  All, All-append, Bool-cases, List, [], arith, inl, inr, leb, length, length-append, ltb, ℕ, ◌+◌,
  ◌==◌, ◌||◌, ◌∷◌, ◌≤◌,
}
use rakka_inference.Ws.Frame.{
  Frame, binary, close, coalesce_binary, flush, merge, merge_all, ping, pong, text,
}

-- No binary payload is longer than `n`.
abbrev pub IsWithin : ℕ → Frame → Type 0
IsWithin n (binary b) = length b ≤ n
IsWithin n _ = Unit

flush-size :
    (n : ℕ) (buf : List ℕ) (out : List Frame)
    → length buf ≤ n
    → All (IsWithin n) out
    → All (IsWithin n) (flush buf out) × (length (flush buf out) ≤ length out + length buf)
unfolding flush
flush-size n [] out l a = (a, omega arith)
flush-size n (b ∷ bs) out l a = (
  All-append (IsWithin n) out _ a (l, tt),
  omega (arith, length-append out (binary (b ∷ bs) ∷ [])),
)

merge-size :
    (n max_bytes : ℕ) (buf : List ℕ) (out : List Frame) (f : Frame)
    → max_bytes ≤ n
    → length buf ≤ max_bytes
    → All (IsWithin n) out
    → IsWithin n f
    → let s = merge max_bytes buf out f in (length s.0 ≤ max_bytes) × All (IsWithin n) s.1
unfolding merge
merge-size n max_bytes buf out (binary b) m l a w =
    let flushed = flush-size n buf out (omega arith) a in
    elim (Bool-cases (leb max_bytes (length b))) [
      | inl big ↦ rw (big, merge) (omega arith, All-append (IsWithin n) _ _ flushed.0 (w, tt))
      | inr small ↦ elim (Bool-cases (ltb max_bytes (length buf + length b))) [
        | inl over ↦ rw (small, over, merge) (ground arith, flushed.0)
        | inr under ↦ let sum = length-append buf b in rw (small, under, merge) (ground arith, a)
      ]
    ]
merge-size n max_bytes buf out (text t) m l a w =
    (omega arith, All-append (IsWithin n) _ _ (flush-size n buf out (omega arith) a).0 (tt, tt))
merge-size n max_bytes buf out (ping p) m l a w =
    (omega arith, All-append (IsWithin n) _ _ (flush-size n buf out (omega arith) a).0 (tt, tt))
merge-size n max_bytes buf out (pong p) m l a w =
    (omega arith, All-append (IsWithin n) _ _ (flush-size n buf out (omega arith) a).0 (tt, tt))
merge-size n max_bytes buf out (close c r) m l a w =
    (omega arith, All-append (IsWithin n) _ _ (flush-size n buf out (omega arith) a).0 (tt, tt))

merge_all-size :
    (n max_bytes : ℕ) (s : List ℕ × List Frame) (fs : List Frame)
    → max_bytes ≤ n
    → length s.0 ≤ max_bytes
    → All (IsWithin n) s.1
    → All (IsWithin n) fs
    → All (IsWithin n) (merge_all max_bytes s fs)
unfolding merge_all
merge_all-size n max_bytes s [] m l a w = (flush-size n s.0 s.1 (omega arith) a).0
merge_all-size n max_bytes s (f ∷ fs) m l a w =
    let step = merge-size n max_bytes s.0 s.1 f m l a w.0 in
    merge_all-size n max_bytes (merge max_bytes s.0 s.1 f) fs m step.0 step.1 w.1

-- A frame that comes out is no longer than the bound, or than the longest frame that came in: with
-- `n` at least the bound and no payload longer than `n` in the input, none is in the output.
coalesce_binary-IsWithin :
    (n max_bytes : ℕ) (frames : List Frame)
    → max_bytes ≤ n
    → All (IsWithin n) frames
    → All (IsWithin n) (coalesce_binary frames max_bytes)
unfolding coalesce_binary
coalesce_binary-IsWithin n max_bytes frames m w =
    elim (Bool-cases (max_bytes == 0 || leb (length frames) 1)) [
      | inl small ↦ rw (small, coalesce_binary) w
      | inr large ↦
          rw (large, coalesce_binary)
            (merge_all-size n max_bytes ([], []) frames m (omega arith) tt w)
    ]
