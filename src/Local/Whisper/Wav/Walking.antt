-- ===== src/Local/Whisper/Wav/Walking.antt =====
-- How the loop walks over a file.
use rakka_inference.Local.Run.{byte_at, pure, u16_at, u32_at}
use rakka_inference.Base.{
  All, Bool-cases, List, [], ap, arith, false, if◌then◌else◌, inl, inr, length, length-append, ltb,
  none, refl, some, suc, sym, true, zero, ℕ, ◌%◌, ◌++◌, ◌+◌, ◌-◌, ◌<◌, ◌==◌, ◌^◌, ◌∙◌, ◌∷◌, ◌≡◌,
  ◌≤◌,
}
use rakka_inference.Local.Whisper.Wav.{
  Chunks, checked_add, data_id, fmt_id, no_chunks, read_body, read_chunk, walk,
}
use rakka_inference.Local.Run.Bounds.{leb-true}
use rakka_inference.Local.Run.Parts.{slice_part, u32_at_part, u32_bytes}
use rakka_inference.Local.Whisper.Wav.File.{
  Extra, IsExtra, chunk_bytes, chunks_bytes, extra_bytes, fmt_body, padding,
}
use Prim.Native.String.{String}
use mathlib.Core.List.{append_assoc, append-nil}

chunk_width :
    (pre id body : List ℕ)
    → length id ≡ 4
    → length pre + 8 + (if length body % 2 == 0 then length body else length body + 1)
      ≡ length (pre ++ chunk_bytes id body)
chunk_width pre id body four = elim (Bool-cases (length body % 2 == 0)) [
  | inl e ↦ rw e (
      omega (
        arith,
        four,
        length-append pre (id ++ (u32_bytes (length body) ++ (body ++ []))),
        length-append id (u32_bytes (length body) ++ (body ++ [])),
        length-append body [],
      ))
  | inr e ↦ rw e (
      omega (
        arith,
        four,
        length-append pre (id ++ (u32_bytes (length body) ++ (body ++ (0 ∷ [])))),
        length-append id (u32_bytes (length body) ++ (body ++ (0 ∷ []))),
        length-append body (0 ∷ []),
      ))
]

ltb-true : (a b : ℕ) → a < b → ltb a b ≡ true
ltb-true a b h = ground arith

pub ltb-false : (a b : ℕ) → b ≤ a → ltb a b ≡ false
ltb-false a b h = ground arith

module _ (lossy : List ℕ → String) where
  -- One round, at a chunk.
  read_chunk_lem :
      (bytes pre id body tail : List ℕ) (s s' : Chunks)
      → bytes ≡ pre ++ (chunk_bytes id body ++ tail)
      → length id ≡ 4
      → length body < 2 ^ 32
      → length bytes < 2 ^ 63
      → read_body id body s ≡ pure s'
      → read_chunk lossy bytes (length pre) s ≡ pure (length (pre ++ chunk_bytes id body), s')
  unfolding read_chunk checked_add
  read_chunk_lem bytes pre id body tail s s' e four fits short r =
      let head = u32_bytes (length body) in
      let rest = body ++ (padding body ++ tail) in
      let at_id : bytes ≡ pre ++ (id ++ (head ++ rest)) = simp append_assoc at e in
      let at_size : bytes ≡ (pre ++ id) ++ (head ++ rest) = simp append_assoc at_id in
      let at_body : bytes ≡ ((pre ++ id) ++ head) ++ rest = simp append_assoc at_id in
      let w1 : length (pre ++ id) ≡ length pre + 4 = omega (arith, four, length-append pre id) in
      let w2 : length ((pre ++ id) ++ head) ≡ length pre + 8 =
        omega (arith, w1, length-append (pre ++ id) head) in
      let total : length pre + 8 + length body ≤ length bytes = omega (
        arith,
        ap length at_body,
        w2,
        length-append ((pre ++ id) ++ head) rest,
        length-append body (padding body ++ tail),
      ) in
      rw
        (
          slice_part bytes pre id (head ++ rest) (length pre) (length pre + 4) at_id refl
              (omega (arith, four)),
          read_chunk,
        )
        (rw
          (
            u32_at_part bytes (pre ++ id) rest (length body) (length pre + 4) at_size
                (omega (arith, w1)) fits,
            checked_add,
          )
          (rw
            (
              ltb-true (length pre + 8 + length body) (2 ^ 64) (omega arith),
              ltb-false (length bytes) (length pre + 8 + length body) total,
            )
            (rw
              (slice_part bytes ((pre ++ id) ++ head) body (padding body ++ tail) (length pre + 8)
                (length pre + 8 + length body) at_body (omega (arith, w2)) refl)
              (rw r (rw (chunk_width pre id body four) refl)))))

  walk_chunk :
      (fuel : ℕ) (bytes pre id body tail : List ℕ) (s s' : Chunks)
      → bytes ≡ pre ++ (chunk_bytes id body ++ tail)
      → length id ≡ 4
      → length body < 2 ^ 32
      → length bytes < 2 ^ 63
      → read_body id body s ≡ pure s'
      → walk lossy (suc fuel) bytes (length pre) s
        ≡ walk lossy fuel bytes (length (pre ++ chunk_bytes id body)) s'
  unfolding walk
  walk_chunk fuel bytes pre id body tail s s' e four fits short r =
      let room : length pre + 8 ≤ length bytes = omega (
        arith,
        four,
        ap length e,
        length-append pre (chunk_bytes id body ++ tail),
        length-append (chunk_bytes id body) tail,
        length-append id (u32_bytes (length body) ++ (body ++ padding body)),
      ) in
      rw (leb-true (length pre + 8) (length bytes) room)
        (rw (read_chunk_lem bytes pre id body tail s s' e four fits short r) refl)

  walk_one :
      (fuel : ℕ) (bytes pre id body tail : List ℕ) (s s' : Chunks)
      → bytes ≡ pre ++ (chunk_bytes id body ++ tail)
      → length id ≡ 4
      → length body < 2 ^ 32
      → length bytes < 2 ^ 63
      → read_body id body s ≡ pure s'
      → 1 ≤ fuel
      → walk lossy fuel bytes (length pre) s
        ≡ walk lossy (fuel - 1) bytes (length (pre ++ chunk_bytes id body)) s'
  walk_one zero bytes pre id body tail s s' e four fits short r h = absurd (omega arith)
  walk_one (suc fuel) bytes pre id body tail s s' e four fits short r h =
      let back : suc fuel - 1 ≡ fuel = omega arith in
      rw back (walk_chunk fuel bytes pre id body tail s s' e four fits short r)

  walk_end :
      (fuel : ℕ) (bytes : List ℕ) (s : Chunks) → walk lossy fuel bytes (length bytes) s ≡ pure s
  unfolding walk
  walk_end zero bytes s = ground arith
  walk_end (suc fuel) bytes s = ground arith

  skipped : (x : Extra) (s : Chunks) → IsExtra x → read_body x.id x.body s ≡ pure s
  unfolding read_body
  skipped x s h = rw h.no_fmt (rw h.no_data refl)

  -- Extra chunks are passed over.
  walk_extras :
      (xs : List Extra) (fuel : ℕ) (bytes pre tail : List ℕ) (s : Chunks)
      → bytes ≡ pre ++ (extra_bytes xs ++ tail)
      → All IsExtra xs
      → length bytes < 2 ^ 63
      → length xs ≤ fuel
      → (left : ℕ) × (fuel ≤ left + length xs)
        × (walk lossy fuel bytes (length pre) s
            ≡ walk lossy left bytes (length (pre ++ extra_bytes xs)) s)
  walk_extras [] fuel bytes pre tail s e h short f = (fuel, omega arith, rw append-nil refl)
  walk_extras (x ∷ xs) zero bytes pre tail s e h short f = absurd (omega arith)
  walk_extras (x ∷ xs) (suc fuel) bytes pre tail s e h short f =
      let chunk = chunk_bytes x.id x.body in
      let here : bytes ≡ pre ++ (chunk ++ (extra_bytes xs ++ tail)) =
        e ∙ ap (λ l. pre ++ l) (append_assoc chunk (extra_bytes xs) tail) in
      let next : bytes ≡ (pre ++ chunk) ++ (extra_bytes xs ++ tail) =
        here ∙ sym (append_assoc pre chunk (extra_bytes xs ++ tail)) in
      let (left, enough, later) =
        walk_extras xs fuel bytes (pre ++ chunk) tail s next h.1 short (omega arith) in
      let step =
        walk_chunk fuel bytes pre x.id x.body (extra_bytes xs ++ tail) s s here h.0.four h.0.fits
          short (skipped x s h.0) in
      (left, omega arith, step ∙ later ∙ rw (append_assoc pre chunk (extra_bytes xs)) refl)

abbrev read_fmt : Chunks
read_fmt = record {
  fmt_tag = some 1;
  channels = some 1;
  sample_rate = some 16_000;
  bits_per_sample = some 16;
  audio = none;
}

fmt_read : read_body fmt_id fmt_body no_chunks ≡ pure read_fmt
unfolding read_body u16_at u32_at byte_at
fmt_read = refl

data_read :
    (audio : List ℕ)
    → read_body data_id audio read_fmt ≡ pure (record read_fmt { audio = some audio })
unfolding read_body
data_read audio = refl

module _ (lossy : List ℕ → String) where
  pub walk_file :
      (fuel : ℕ) (bytes pre : List ℕ) (before between : List Extra) (audio : List ℕ)
      → bytes ≡ pre ++ chunks_bytes before between audio
      → All IsExtra before
      → All IsExtra between
      → length audio < 2 ^ 32
      → length audio % 2 ≡ 0
      → length bytes < 2 ^ 63
      → length before + length between + 2 ≤ fuel
      → walk lossy fuel bytes (length pre) no_chunks ≡ pure (record read_fmt { audio = some audio })
  walk_file fuel bytes pre before between audio e hb hm fits even short enough =
      let fmt = chunk_bytes fmt_id fmt_body in
      let at_end = chunk_bytes data_id audio in
      let (left, n1, e1) =
        walk_extras lossy before fuel bytes pre (fmt ++ (extra_bytes between ++ at_end)) no_chunks e
          hb short (omega arith) in
      let p1 = pre ++ extra_bytes before in
      let at_fmt : bytes ≡ p1 ++ (fmt ++ (extra_bytes between ++ at_end)) =
        e ∙ sym (append_assoc pre (extra_bytes before) _) in
      let e2 =
        walk_one lossy left bytes p1 fmt_id fmt_body (extra_bytes between ++ at_end) no_chunks
          read_fmt at_fmt refl (omega arith) short fmt_read (omega arith) in
      let at_between : bytes ≡ (p1 ++ fmt) ++ (extra_bytes between ++ at_end) =
        at_fmt ∙ sym (append_assoc p1 fmt _) in
      let (left', n3, e3) =
        walk_extras lossy between (left - 1) bytes (p1 ++ fmt) at_end read_fmt at_between hm short
          (omega arith) in
      let p3 = (p1 ++ fmt) ++ extra_bytes between in
      let at_data : bytes ≡ p3 ++ (at_end ++ []) =
        at_between
        ∙ sym (append_assoc (p1 ++ fmt) (extra_bytes between) at_end)
        ∙ ap (λ l. p3 ++ l) (sym (append-nil at_end)) in
      let e4 =
        walk_one lossy left' bytes p3 data_id audio [] read_fmt
          (record read_fmt { audio = some audio }) at_data refl fits short (data_read audio)
          (omega arith) in
      let last : length (p3 ++ at_end) ≡ length bytes =
        ap length
          (sym (at_between ∙ sym (append_assoc (p1 ++ fmt) (extra_bytes between) at_end))) in
      e1 ∙ e2 ∙ e3 ∙ e4 ∙ rw last (walk_end lossy (left' - 1) bytes _)
