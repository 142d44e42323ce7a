-- ===== src/Providers/Chunking.antt =====
-- The loop that cuts a body into slices, in crates/inference-runtime-deepgram/src/runner.rs,
-- crates/inference-runtime-assemblyai/src/runner.rs and
-- crates/inference-runtime-elevenlabs/src/runner.rs.
pub mod Slices
use Prim.Native.Nat.{min}
use mathlib.Core.Option
use rakka_inference.Base.{
  List, Option, [], drop, if◌then◌else◌, length, ltb, map, none, some, suc, take, zero, ℕ, ◌+◌, ◌-◌,
  ◌∷◌,
}

-- The slices with their ends. `none` is fuel run out; each round takes a byte at least.
pub slices : ℕ → ℕ → ℕ → List ℕ → Option (List (List ℕ × ℕ))
slices zero size offset bytes = none
slices (suc fuel) size offset bytes =
    let end = min (offset + size) (length bytes) in
    let rest = slices fuel size end bytes in
    if ltb offset (length bytes)
    then Option.map (λ pieces. (take (end - offset) (drop offset bytes), end) ∷ pieces) rest
    else some []

unfoldable pub cut : ℕ → List ℕ → Option (List (List ℕ × ℕ))
unfolding slices
cut size bytes = slices (length bytes + 1) size 0 bytes
