-- ===== src/Local/Whisper/Samples/Encoding.antt =====
-- Samples as an encoder writes them.
use rakka_inference.Base.{
  All, List, [], ap, arith, length, map, ok, refl, ℕ, ◌%◌, ◌*◌, ◌+◌, ◌/◌, ◌<◌, ◌^◌, ◌∷◌, ◌≡◌,
}
use rakka_inference.Local.Whisper.Samples.{Float32, decode_pcm16, sample16, samples16}

abbrev pub pcm16_bytes : List ℕ → List ℕ
pcm16_bytes [] = []
pcm16_bytes (w ∷ ws) = w % 256 ∷ w / 256 % 256 ∷ pcm16_bytes ws

whole16 : (w : ℕ) → w < 2 ^ 16 → w % 256 + 256 * (w / 256 % 256) ≡ w
whole16 w h = omega arith

samples16-pcm16_bytes :
    (fl : Float32) (ws : List ℕ)
    → All (λ w. w < 2 ^ 16) ws
    → samples16 fl (pcm16_bytes ws) ≡ map (sample16 fl) ws
unfolding samples16
samples16-pcm16_bytes fl [] h = refl
samples16-pcm16_bytes fl (w ∷ ws) h = rw (samples16-pcm16_bytes fl ws h.1, whole16 w h.0) refl

pub length-pcm16_bytes : (ws : List ℕ) → length (pcm16_bytes ws) ≡ 2 * length ws
length-pcm16_bytes [] = refl
length-pcm16_bytes (w ∷ ws) = omega (arith, length-pcm16_bytes ws)

pub decode_pcm16-pcm16_bytes :
    (fl : Float32) (ws : List ℕ)
    → All (λ w. w < 2 ^ 16) ws
    → decode_pcm16 fl (pcm16_bytes ws) ≡ ok (map (sample16 fl) ws)
unfolding decode_pcm16
decode_pcm16-pcm16_bytes fl ws h =
    let even : length (pcm16_bytes ws) % 2 ≡ 0 = omega (arith, length-pcm16_bytes ws) in
    rw even (ap ok (samples16-pcm16_bytes fl ws h))
