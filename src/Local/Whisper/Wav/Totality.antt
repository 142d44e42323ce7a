-- ===== src/Local/Whisper/Wav/Totality.antt =====
-- The decoder reads within bounds and ends.
use rakka_inference.Base.{
  Bool, List, arith, false, if◌then◌else◌, leb, length, ltb, refl, suc, true, zero, ℕ, ◌%◌, ◌&&◌,
  ◌+◌, ◌<◌, ◌==◌, ◌^◌, ◌≡◌, ◌≤◌,
}
use rakka_inference.Local.Whisper.Samples.{Float32}
use rakka_inference.Local.Whisper.Wav.{
  Chunks, bytes_eq, checked_add, data_id, decode_wav, finish, fmt_id, has_header, no_chunks,
  read_body, read_chunk, walk,
}
use rakka_inference.Local.Run.Bounds.{
  Returns, Returns-bind, Returns-if, failed, leb→le, not_ltb→le, result_Returns, slice-Returns,
  succeeded, u16_at-Returns, u32_at-Returns,
}
use Prim.Native.String.{String}

both : (a b : Bool) → a && b ≡ true → b ≡ true
both true b e = e
both false b e = absurd (cc)

read_body-Returns :
    (id body : List ℕ) (s : Chunks) → Returns {A = Chunks} (λ _. Unit) (read_body id body s)
unfolding read_body
read_body-Returns id body s =
    Returns-if _ (bytes_eq id fmt_id && leb 16 (length body)) _ _
      (λ e.
        let long : 16 ≤ length body =
          leb→le 16 (length body) (both (bytes_eq id fmt_id) (leb 16 (length body)) e) in
        Returns-bind _ _ _ _ (u16_at-Returns body 0 (omega arith)) (λ tag _.
          Returns-bind _ _ _ _ (u16_at-Returns body 2 (omega arith)) (λ channels _.
            Returns-bind _ _ _ _ (u32_at-Returns body 4 (omega arith)) (λ rate _.
              Returns-bind _ _ _ _ (u16_at-Returns body 14 (omega arith))
                (λ bits _. succeeded _ tt)))))
      (λ _. Returns-if _ (bytes_eq id data_id) _ _ (λ _. succeeded _ tt) (λ _. succeeded _ tt))

checked_add-Returns : (a b : ℕ) → Returns (λ r. r ≡ a + b) (checked_add a b)
unfolding checked_add
checked_add-Returns a b =
    Returns-if _ (ltb (a + b) (2 ^ 64)) _ _ (λ _. succeeded _ refl) (λ _. failed _)

advances : (p size : ℕ) → p ≤ p + (if size % 2 == 0 then size else size + 1)
advances p size = omega arith

module _ (lossy : List ℕ → String) where
  read_chunk-Returns :
      (bytes : List ℕ) (pos : ℕ) (s : Chunks)
      → pos + 8 ≤ length bytes
      → Returns {A = ℕ × Chunks} (λ r. pos + 8 ≤ r.0) (read_chunk lossy bytes pos s)
  unfolding read_chunk
  read_chunk-Returns bytes pos s h =
      Returns-bind _ _ _ _ (slice-Returns bytes pos (pos + 4) (omega arith) (omega arith)) (λ id _.
        Returns-bind _ _ _ _ (u32_at-Returns bytes (pos + 4) (omega arith)) (λ size _.
          Returns-bind _ _ _ _ (checked_add-Returns (pos + 8) size) (λ body_end e.
            Returns-if _ (ltb (length bytes) body_end) _ _ (λ _. failed _)
              (λ within.
                Returns-bind _ _ _ _
                  (slice-Returns bytes (pos + 8) body_end (omega (arith, e))
                    (not_ltb→le _ _ within))
                  (λ body _.
                    Returns-bind _ _ _ _ (read_body-Returns id body s)
                      (λ s' _. succeeded _ (advances (pos + 8) size)))))))

  walk-Returns :
      (fuel : ℕ) (bytes : List ℕ) (pos : ℕ) (s : Chunks)
      → length bytes < pos + 8 + fuel
      → Returns {A = Chunks} (λ _. Unit) (walk lossy fuel bytes pos s)
  unfolding walk
  walk-Returns zero bytes pos s h =
      Returns-if _ (leb (pos + 8) (length bytes)) _ _ (λ e. absurd (omega (arith, leb→le _ _ e)))
        (λ _. succeeded s tt)
  walk-Returns (suc fuel) bytes pos s h =
      Returns-if _ (leb (pos + 8) (length bytes)) _ _
        (λ e.
          Returns-bind _ _ _ _ (read_chunk-Returns bytes pos s (leb→le _ _ e))
            (λ r further. walk-Returns fuel bytes r.0 r.1 (omega arith)))
        (λ _. succeeded s tt)

has_header-Returns : (bytes : List ℕ) → Returns {A = Bool} (λ _. Unit) (has_header bytes)
unfolding has_header
has_header-Returns bytes =
    Returns-if _ (ltb (length bytes) 12) _ _ (λ _. succeeded _ tt)
      (λ e.
        let long : 12 ≤ length bytes = not_ltb→le _ _ e in
        Returns-bind _ _ _ _ (slice-Returns bytes 0 4 (omega arith) (omega arith)) (λ riff _.
          Returns-bind _ _ _ _ (slice-Returns bytes 8 12 (omega arith) (omega arith))
            (λ wave _. succeeded _ tt)))

module _ (fl : Float32) (lossy : List ℕ → String) where
  open fl use {F}

  pub decode_wav-Returns :
      (bytes : List ℕ) → Returns {A = List F} (λ _. Unit) (decode_wav fl lossy bytes)
  unfolding decode_wav
  decode_wav-Returns bytes = Returns-bind _ _ _ _ (has_header-Returns bytes) (λ is_wav _.
      Returns-if _ is_wav _ _
        (λ _.
          Returns-bind _ _ _ _ (walk-Returns lossy (length bytes) bytes 12 no_chunks (omega arith))
            (λ s _. result_Returns (finish fl s)))
        (λ _. failed _))
