-- ===== src/Ws/Frame/Examples.antt =====
-- A run of frames that is merged.
use rakka_inference.Base.{List, [], refl, ◌∷◌, ◌≡◌}
use rakka_inference.Ws.Frame.{Frame, binary, coalesce_binary, text}
use rakka_inference.Ws.Frame.Preservation.{explode, explode-coalesce_binary}

abbrev run : List Frame
run =
    binary (1 ∷ 2 ∷ [])
    ∷ binary (3 ∷ [])
    ∷ text "stop"
    ∷ binary (4 ∷ 5 ∷ 6 ∷ 7 ∷ [])
    ∷ binary (8 ∷ [])
    ∷ binary (9 ∷ [])
    ∷ []

-- Two short frames are merged, up to the text; a frame that is over the bound goes through.
run_merged :
    coalesce_binary run 3
    ≡ binary (1 ∷ 2 ∷ 3 ∷ []) ∷ text "stop" ∷ binary (4 ∷ 5 ∷ 6 ∷ 7 ∷ []) ∷ binary (8 ∷ 9 ∷ []) ∷ []
unfolding coalesce_binary
run_merged = refl

explode-coalesce_binary_example : explode (coalesce_binary run 3) ≡ explode run
explode-coalesce_binary_example = explode-coalesce_binary run 3
