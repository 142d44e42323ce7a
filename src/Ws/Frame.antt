-- ===== src/Ws/Frame.antt =====
-- crates/inference-runtime-ws-core/src/frame.rs: frames, and the merging of adjacent binary ones.
-- Bytes are numbers.
pub mod Preservation
pub mod Size
mod Examples
use rakka_inference.Base.{
  Bool, List, [], false, if◌then◌else◌, leb, length, ltb, true, ℕ, ◌++◌, ◌+◌, ◌==◌, ◌||◌, ◌∷◌,
}
use Prim.Native.String.{String}

pub data Frame : Type 0 where
  binary : List ℕ → Frame
  text : String → Frame
  ping : List ℕ → Frame
  pong : List ℕ → Frame
  close : (code : ℕ) (reason : String) → Frame

abbrev pub is_control : Frame → Bool
is_control (ping _) = true
is_control (pong _) = true
is_control (close _ _) = true
is_control _ = false

-- `flush`; the buffer is emptied by the callers.
pub flush : List ℕ → List Frame → List Frame
flush [] out = out
flush (b ∷ bs) out = out ++ (binary (b ∷ bs) ∷ [])

-- The body of the loop, on the buffer and the output.
pub merge : ℕ → List ℕ → List Frame → Frame → List ℕ × List Frame
unfolding flush
merge max_bytes buf out (binary b) =
    if leb max_bytes (length b)
    then ([], flush buf out ++ (binary b ∷ []))
    else if ltb max_bytes (length buf + length b)
    then (b, flush buf out)
    else (buf ++ b, out)
merge max_bytes buf out other = ([], flush buf out ++ (other ∷ []))

pub merge_all : ℕ → List ℕ × List Frame → List Frame → List Frame
unfolding merge
merge_all max_bytes s [] = flush s.0 s.1
merge_all max_bytes s (f ∷ fs) = merge_all max_bytes (merge max_bytes s.0 s.1 f) fs

pub coalesce_binary : List Frame → ℕ → List Frame
unfolding merge_all
coalesce_binary frames max_bytes =
    if max_bytes == 0 || leb (length frames) 1 then frames else merge_all max_bytes ([], []) frames
