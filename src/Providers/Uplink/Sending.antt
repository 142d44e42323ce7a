-- ===== src/Providers/Uplink/Sending.antt =====
-- What goes out for a payload.
use Prim.Native.String.{String}
use mathlib.Core.List.{append_assoc}
use rakka_inference.Base.{
  List, Result, [], ap, arith, length, none, ok, refl, some, ℕ, ◌++◌, ◌∙◌, ◌∷◌, ◌≡◌,
}
use rakka_inference.Core.Audio.{AudioParams, bytes}
use rakka_inference.Ws.Frame.{Frame, binary, text}
use rakka_inference.Providers.Chunking.Slices.{AreSlices, AreWithin, cut-AreSlices}
use rakka_inference.Providers.Uplink.{
  open_audio_input, pieces_of, static, static_chunk_bytes, uplink,
}

pub frames_of : List (List ℕ × ℕ) → List Frame
frames_of [] = []
frames_of ((piece, end) ∷ rest) = binary piece ∷ frames_of rest

pub record IsSent (content : List ℕ) (close_json : String) (frames : List Frame) : Type 0 where
  pub pieces : List (List ℕ × ℕ)
  pub parted : AreSlices static_chunk_bytes 0 content pieces
  pub framed : frames ≡ frames_of pieces ++ text close_json ∷ []

uplink-frames_of :
    (name close_json : String) (size total : ℕ) (sent : List Frame) (pieces : List (List ℕ × ℕ))
    → AreWithin size total pieces
    → uplink name close_json none sent (pieces_of pieces)
      ≡ (sent ++ (frames_of pieces ++ text close_json ∷ []), none)
unfolding uplink pieces_of frames_of AreWithin
uplink-frames_of name close_json size total sent [] h = refl
uplink-frames_of name close_json size total sent (([], end) ∷ []) h = absurd (omega (arith, h.0))
uplink-frames_of name close_json size total sent (([], end) ∷ q ∷ pieces) h =
    absurd (omega (arith, h.0.0))
uplink-frames_of name close_json size total sent ((b ∷ bs, end) ∷ []) h = rw append_assoc refl
uplink-frames_of name close_json size total sent ((b ∷ bs, end) ∷ q ∷ pieces) h =
    uplink-frames_of name close_json size total (sent ++ binary (b ∷ bs) ∷ []) (q ∷ pieces) h.1
    ∙ rw (append_assoc sent (binary (b ∷ bs) ∷ []) (frames_of (q ∷ pieces) ++ text close_json ∷ []))
        refl

-- A payload of bytes goes out whole, in frames of at most 4,096 bytes, none empty, with the closing
-- message behind them, over a socket that does not break.
pub uplink-IsSent :
    (name close_json : String) (reads : String → Result (List ℕ) String) (content : List ℕ)
    (params : AudioParams)
    → (chunks : List (List ℕ)) × (open_audio_input name reads (static (bytes content params))
        ≡ ok (params, some chunks))
      × IsSent content close_json (uplink name close_json none [] chunks).0
unfolding open_audio_input
uplink-IsSent name close_json reads content params =
    let (pieces, e, parted) = cut-AreSlices static_chunk_bytes content (omega arith) in
    (
      pieces_of pieces,
      rw e refl,
      record {
        pieces = pieces;
        parted = parted;
        framed =
            ap (λ r. r.0)
              (uplink-frames_of name close_json static_chunk_bytes (length content) [] pieces
                parted.within);
      },
    )
