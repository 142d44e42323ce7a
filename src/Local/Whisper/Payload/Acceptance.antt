-- ===== src/Local/Whisper/Payload/Acceptance.antt =====
-- What becomes of a payload.
use rakka_inference.Local.Run.{Run, pure, returned, ◌>>=◌}
use rakka_inference.Base.{
  Bool, List, Result, arith, err, false, if◌then◌else◌, inl, inr, not, ok, refl, true, ℕ, ◌==◌, ◌≡◌,
  ◌⊎◌,
}
use rakka_inference.Local.Whisper.{WhisperError}
use rakka_inference.Local.Whisper.Samples.{Float32}
use rakka_inference.Core.Audio.{
  AudioFormat, AudioParams, AudioPayload, bytes, path, payload_params, pcm16_le, pcm_f32_le, url,
  wav,
}
use rakka_inference.Local.Run.Bounds.{
  Returns, Returns-bind, Returns-returned, failed, result_Returns,
}
use rakka_inference.Local.Whisper.Wav.Totality.{decode_wav-Returns}
use rakka_inference.Local.Whisper.Payload.{
  IoError, check_params, decode_as, decode_bytes, payload_to_f32_pcm, read_file,
}
use Prim.Native.String.{String}

-- The rate is the configured one, the audio is mono, and the format is one of the three that are read.
record IsAccepted (params : AudioParams) (rate : ℕ) : Type 0 where
  pub same_rate : params.sample_rate_hz ≡ rate
  pub mono : params.channels ≡ 1
  pub readable : (params.format ≡ pcm16_le) ⊎ (params.format ≡ pcm_f32_le) ⊎ (params.format ≡ wav)

guard-ok :
    {A E : Type 0} (b : Bool) (e : E) (m : Result A E) (a : A)
    → (if not b then err e else m) ≡ ok a
    → (b ≡ true) × (m ≡ ok a)
guard-ok true e m a h = (refl, h)
guard-ok false e m a h = absurd (cc)

==→≡ : (a b : ℕ) → a == b ≡ true → a ≡ b
==→≡ a b e = ground arith

check_params-ok :
    (params : AudioParams) (rate : ℕ)
    → check_params params rate ≡ ok tt
    → (params.sample_rate_hz ≡ rate) × (params.channels ≡ 1)
unfolding check_params
check_params-ok params rate e =
    let (same, rest) = guard-ok (params.sample_rate_hz == rate) _ _ tt e in
    let (one, _) = guard-ok (params.channels == 1) _ _ tt rest in (==→≡ _ _ same, ==→≡ _ _ one)

returned-bind :
    {A B E : Type 0} (r : Result A E) (f : A → Run B E) (b : B)
    → returned r >>= f ≡ pure b
    → (a : A) × (r ≡ ok a) × (f a ≡ pure b)
returned-bind (ok a) f b e = (a, refl, e)
returned-bind (err x) f b e = absurd (cc)

module _ (fl : Float32) (lossy : List ℕ → String) (read : String → Result (List ℕ) IoError) where
  open fl use {F}

  decode_as-Returns :
      (f : AudioFormat) (content : List ℕ)
      → Returns {A = List F} (λ _. Unit) (decode_as fl lossy read f content)
  unfolding decode_as
  decode_as-Returns pcm16_le content = result_Returns _
  decode_as-Returns pcm_f32_le content = result_Returns _
  decode_as-Returns wav content = decode_wav-Returns fl lossy content
  decode_as-Returns other content = failed _

  decode_as-ok :
      (f : AudioFormat) (content : List ℕ) (samples : List F)
      → decode_as fl lossy read f content ≡ pure samples
      → (f ≡ pcm16_le) ⊎ (f ≡ pcm_f32_le) ⊎ (f ≡ wav)
  unfolding decode_as
  decode_as-ok pcm16_le content samples e = inl refl
  decode_as-ok pcm_f32_le content samples e = inr (inl refl)
  decode_as-ok wav content samples e = inr (inr refl)
  decode_as-ok other content samples e = absurd (cc)

  decided :
      (content : List ℕ) (params : AudioParams) (rate : ℕ) (samples : List F)
      → check_params params rate ≡ ok tt
      → decode_bytes fl lossy read content params ≡ pure samples
      → IsAccepted params rate
  unfolding decode_bytes
  decided content params rate samples passed decoded =
      let (same_rate, mono) = check_params-ok params rate passed in
      record {
        same_rate = same_rate;
        mono = mono;
        readable = decode_as-ok params.format content samples decoded;
      }

  -- Samples come only out of audio that is accepted.
  payload_to_f32_pcm-IsAccepted :
      (payload : AudioPayload) (rate : ℕ) (samples : List F)
      → payload_to_f32_pcm fl lossy read payload rate ≡ pure samples
      → IsAccepted (payload_params payload) rate
  unfolding payload_to_f32_pcm payload_params
  payload_to_f32_pcm-IsAccepted (bytes content params) rate samples e =
      let (_, passed, decoded) = returned-bind (check_params params rate) _ samples e in
      decided content params rate samples passed decoded
  payload_to_f32_pcm-IsAccepted (path p params) rate samples e =
      let (_, passed, more) = returned-bind (check_params params rate) _ samples e in
      let (content, _, decoded) = returned-bind (read_file read p) _ samples more in
      decided content params rate samples passed decoded
  payload_to_f32_pcm-IsAccepted (url _ _) rate samples e = absurd (cc)

  payload_to_f32_pcm-Returns :
      (payload : AudioPayload) (rate : ℕ)
      → Returns {A = List F} (λ _. Unit) (payload_to_f32_pcm fl lossy read payload rate)
  unfolding payload_to_f32_pcm decode_bytes
  payload_to_f32_pcm-Returns (bytes content params) rate =
      Returns-bind _ _ _ _ (result_Returns (check_params params rate))
        (λ _ _. decode_as-Returns params.format content)
  payload_to_f32_pcm-Returns (path p params) rate =
      Returns-bind _ _ _ _ (result_Returns (check_params params rate)) (λ _ _.
        Returns-bind _ _ _ _ (result_Returns (read_file read p))
          (λ content _. decode_as-Returns params.format content))
  payload_to_f32_pcm-Returns (url _ _) rate = failed _

  -- Whatever the payload and whatever the file that it names holds, the decoding ends with samples or
  -- an error: no read is out of bounds and the fuel is enough.
  pub payload_to_f32_pcm-total :
      (payload : AudioPayload) (rate : ℕ)
      → (r : Result (List F) WhisperError) × (payload_to_f32_pcm fl lossy read payload rate
          ≡ returned r)
  payload_to_f32_pcm-total payload rate =
      Returns-returned {A = List F} (λ _. Unit) _ (payload_to_f32_pcm-Returns payload rate)
