-- ===== src/Providers/Uplink/Examples.antt =====
-- A payload of two bytes, and a socket that breaks.
use Prim.Native.String.{String}
use rakka_inference.Base.{List, Result, [], err, none, ok, refl, some, ℕ, ◌∷◌, ◌≡◌}
use rakka_inference.Core.Error.{network_error}
use rakka_inference.Core.Audio.{AudioParams, bytes, pcm16_le}
use rakka_inference.Providers.Uplink.{open_audio_input, static, uplink}
use rakka_inference.Providers.Uplink.Sending.{IsSent, uplink-IsSent}

abbrev mono : AudioParams
mono = record { sample_rate_hz = 16_000; channels = 1; format = pcm16_le }

abbrev unreadable : String → Result (List ℕ) String
unreadable p = err "no such file"

broken_at_once :
    uplink "deepgram" "{}" (some (0, "reset")) [] ((1 ∷ 2 ∷ []) ∷ [])
    ≡ ([], some (network_error "deepgram ws send: reset"))
unfolding uplink
broken_at_once = refl

uplink-IsSent_example :
    (chunks : List (List ℕ)) × (open_audio_input "deepgram" unreadable
        (static (bytes (1 ∷ 2 ∷ []) mono))
      ≡ ok (mono, some chunks))
    × IsSent (1 ∷ 2 ∷ []) "{}" (uplink "deepgram" "{}" none [] chunks).0
uplink-IsSent_example = uplink-IsSent "deepgram" "{}" unreadable (1 ∷ 2 ∷ []) mono
