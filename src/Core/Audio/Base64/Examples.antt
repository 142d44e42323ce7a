-- ===== src/Core/Audio/Base64/Examples.antt =====
-- The vectors of RFC 4648.
use rakka_inference.Base.{[], arith, ok, refl, ◌∷◌, ◌≡◌}
use rakka_inference.Core.Audio.Base64.{codes, decode, encode, symbol}
use rakka_inference.Core.Audio.Base64.RoundTrip.{decode-encode}

encoded : encode (codes "foobar") ≡ codes "Zm9vYmFy"
unfolding encode symbol
encoded = refl

padded : encode (codes "foob") ≡ codes "Zm9vYg=="
unfolding encode symbol
padded = refl

decoded : decode (codes "Zm9vYmE=") ≡ ok (codes "fooba")
unfolding decode
decoded = refl

decode-encode_example : decode (encode (0 ∷ 255 ∷ 16 ∷ 7 ∷ [])) ≡ ok (0 ∷ 255 ∷ 16 ∷ 7 ∷ [])
decode-encode_example = decode-encode (0 ∷ 255 ∷ 16 ∷ 7 ∷ []) (omega arith)
