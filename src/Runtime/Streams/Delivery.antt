-- ===== src/Runtime/Streams/Delivery.antt =====
-- What the receiver of a stream has got.
use mathlib.Core.List.{append_assoc, append-nil}
use rakka_inference.Base.{
  Bool-cases, List, Option, Result, [], arith, inl, inr, length, length-append, ltb, none, refl,
  some, subst, suc, sym, take, take-nil, ℕ, ◌++◌, ◌+◌, ◌-◌, ◌<◌, ◌∙◌, ◌∷◌, ◌≡◌,
}
use rakka_inference.Core.Error.{InferenceError}
use rakka_inference.Remote.Worker.{Output, is_open, send}
use rakka_inference.Runtime.Streams.{pump}

module _ {Chunk : Type 0} where
  -- The items that a receiver takes that has taken some already and may be dropped.
  pub taken : Option ℕ → ℕ → List (Result Chunk InferenceError) → List (Result Chunk InferenceError)
  taken none n items = items
  taken (some limit) n items = take (limit - n) items

  -- An output has gained what there was to deliver, up to where its receiver is dropped.
  pub Gains : Output Chunk → Output Chunk → List (Result Chunk InferenceError) → Type 0
  Gains o o' items = o'.sent ≡ o.sent ++ taken o.drops_after (length o.sent) items

  taken-room :
      (limit n : ℕ) (item : Result Chunk InferenceError)
      (items : List (Result Chunk InferenceError))
      → n < limit
      → take (limit - n) (item ∷ items) ≡ item ∷ take (limit - (n + 1)) items
  taken-room limit n item items p =
      let e : limit - n ≡ suc (limit - (n + 1)) = omega arith in rw e refl

  pub pump-open :
      (sent items : List (Result Chunk InferenceError))
      → (pump (record { sent = sent; drops_after = none }) items).sent ≡ sent ++ items
  unfolding pump send
  pump-open sent [] = sym (append-nil sent)
  pump-open sent (item ∷ items) =
      pump-open (sent ++ item ∷ []) items ∙ append_assoc sent (item ∷ []) items

  pump-limited :
      (limit : ℕ) (sent items : List (Result Chunk InferenceError))
      → (pump (record { sent = sent; drops_after = some limit }) items).sent
        ≡ sent ++ take (limit - length sent) items
  unfolding pump send
  pump-limited limit sent [] = rw (take-nil, append-nil) refl
  pump-limited limit sent (item ∷ items) = elim (Bool-cases (ltb (length sent) limit)) [
    | inl open_end ↦
        rw
          (
            open_end,
            pump,
            pump-limited limit (sent ++ item ∷ []) items,
            length-append,
            taken-room limit (length sent) item items (grind arith),
          )
          (append_assoc sent (item ∷ []) (take (limit - (length sent + 1)) items))
    | inr dropped ↦
        let full : limit - length sent ≡ 0 = grind arith in rw (dropped, full, append-nil) refl
  ]

  pump-taken :
      (drops_after : Option ℕ) (sent items : List (Result Chunk InferenceError))
      → (pump (record { sent = sent; drops_after = drops_after }) items).sent
        ≡ sent ++ taken drops_after (length sent) items
  unfolding taken
  pump-taken none sent items = pump-open sent items
  pump-taken (some limit) sent items = pump-limited limit sent items

  pub pump-Gains :
      (o : Output Chunk) (items : List (Result Chunk InferenceError)) → Gains o (pump o items) items
  unfolding Gains
  pump-Gains o items = pump-taken o.drops_after o.sent items

  pump-send :
      (o : Output Chunk) (item : Result Chunk InferenceError) → pump o (item ∷ []) ≡ (send o item).0
  unfolding pump send
  pump-send o item = elim (Bool-cases (is_open o.drops_after (length o.sent))) [
    | inl open_end ↦ rw open_end refl
    | inr dropped ↦ rw dropped refl
  ]

  pub send-Gains :
      (o : Output Chunk) (item : Result Chunk InferenceError) → Gains o (send o item).0 (item ∷ [])
  send-Gains o item =
      subst (λ o'. Gains o o' (item ∷ [])) (pump-send o item) (pump-Gains o (item ∷ []))
