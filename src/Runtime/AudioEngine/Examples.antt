-- ===== src/Runtime/AudioEngine/Examples.antt =====
-- An engine of transcription that runs one request at a time.
use rakka_inference.Base.{List, [], err, ok, refl, ◌∷◌, ◌≡◌}
use rakka_inference.Core.Error.{backpressure}
use rakka_inference.Runtime.AudioEngine.{
  AudioEngineConfig, Event, add_audio2_face, add_transcribe, message, new_stt, run, stt, task_end,
}
use rakka_inference.Runtime.AudioEngine.Capacity.{new_of}

abbrev one : AudioEngineConfig
one = record { max_concurrent = 1; queue_capacity = 256 }

abbrev events : List Event
events =
    message (add_transcribe "a")
    ∷ message (add_transcribe "b")
    ∷ message (add_audio2_face "c")
    ∷ task_end 0
    ∷ message (add_transcribe "d")
    ∷ []

-- The second is refused at the bound; the third is refused on its output, at the bound too.
answered :
    (run (new_of stt one) events).answers
    ≡ ("d", ok tt)
      ∷ ("c", ok tt)
      ∷ ("b", err (backpressure "audio engine at capacity"))
      ∷ ("a", ok tt)
      ∷ []
unfolding run new_stt
answered = refl
