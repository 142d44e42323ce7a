-- ===== src/Providers/Chat/Streams.antt =====
-- What a request makes of a stream of events.
use Prim.Native.String.{String}
use Prim.Native.String.{◌++◌ as ◌+++◌}
use text.Mathlib.TextLemmas.{nil-append as texts_nil}
use rakka_inference.Providers.Chat.{SseChunk, lifted}
use rakka_inference.Core.Tokens.{
  FinishReason, TokenChunk, Tokens, append, append_all, default_tokens,
}
use rakka_inference.Core.Tokens.Accumulation.{append-finish_reason, append_all_lem, texts}
use rakka_inference.Runtime.Request.{chunk, new, run}
use rakka_inference.Runtime.Request.Answers.{run-answers, told}
use rakka_inference.Core.Error.{InferenceError}
use rakka_inference.Base.{
  All, List, Option, Result, [], ap, arith, map, none, ok, refl, some, sym, ◌++◌, ◌∙◌, ◌∷◌, ◌≡◌,
}

module _ {Json : Type 0} (lift : SseChunk → Option (Result (TokenChunk Json) InferenceError))
    (said : SseChunk → String) where
  -- An event that gives no chunk, or a chunk with its text and no reason to end.
  pub data IsQuiet (sc : SseChunk) : Type 0 where
    skipped : lift sc ≡ none → said sc ≡ "" → IsQuiet sc
    spoken :
        (c : TokenChunk Json)
        → lift sc ≡ some (ok c)
        → c.finish_reason ≡ none
        → c.text_delta ≡ said sc
        → IsQuiet sc

  pub said_all : List SseChunk → String
  said_all [] = ""
  said_all (sc ∷ scs) = said sc +++ said_all scs

  Lifted :
      List SseChunk
      → List (Result SseChunk InferenceError)
      → List (Result (TokenChunk Json) InferenceError)
      → Type 0
  Lifted talk items out =
      (cs : List (TokenChunk Json)) × (out ≡ map ok cs ++ lifted lift items)
      × All (λ (c : TokenChunk Json). c.finish_reason ≡ none) cs
      × (texts cs ≡ said_all talk)

  talk-Lifted :
      (talk : List SseChunk) (items : List (Result SseChunk InferenceError))
      → All IsQuiet talk
      → Lifted talk items (lifted lift (map ok talk ++ items))
  unfolding Lifted lifted said_all texts
  talk-Lifted [] items all = ([], refl, tt, refl)
  talk-Lifted (sc ∷ talk) items (skipped e silent, all) =
      let (cs, out, quiet, whole) = talk-Lifted talk items all in
      (
        cs,
        rw (e, lifted) out,
        quiet,
        whole ∙ sym (texts_nil (said_all talk)) ∙ ap (λ t. t +++ said_all talk) (sym silent),
      )
  talk-Lifted (sc ∷ talk) items (spoken c e no_reason text, all) =
      let (cs, out, quiet, whole) = talk-Lifted talk items all in
      (
        c ∷ cs,
        rw (e, lifted) (ap (λ l. ok c ∷ l) out),
        (no_reason, quiet),
        (λ i. text i +++ whole i),
      )

  told_all :
      (cs : List (TokenChunk Json)) (items : List (Result (TokenChunk Json) InferenceError))
      → map chunk (map ok cs ++ items) ≡ map told cs ++ map chunk items
  told_all [] items = refl
  told_all (c ∷ cs) items = ap (λ l. told c ∷ l) (told_all cs items)

  -- A new request that is told quiet events, and then one with a reason, delivers one answer, with their
  -- texts in order and this reason, whatever follows.
  pub stream-answers :
      (talk : List SseChunk) (closing : SseChunk) (last : TokenChunk Json) (r : FinishReason)
      (rest : List (Result SseChunk InferenceError))
      → All IsQuiet talk
      → lift closing ≡ some (ok last)
      → last.finish_reason ≡ some r
      → (answer : Tokens) × ((run new
            (map chunk (lifted lift (map ok talk ++ ok closing ∷ rest)))).done
          ≡ answer ∷ [])
        × (answer.text ≡ said_all talk +++ last.text_delta)
        × (answer.finish_reason ≡ some r)
  unfolding lifted new append Lifted
  stream-answers talk closing last r rest all e reason =
      let (cs, out, quiet, whole) = talk-Lifted talk (ok closing ∷ rest) all in
      let before = append_all default_tokens cs in
      let ends : lifted lift (ok closing ∷ rest) ≡ ok last ∷ lifted lift rest =
        rw (e, lifted) refl in
      (
        append before last,
        ap (λ l. (run new (map chunk l)).done) (out ∙ ap (λ l. map ok cs ++ l) ends)
            ∙ ap (λ l. (run new l).done) (told_all cs (ok last ∷ lifted lift rest))
            ∙ run-answers new cs last r (map chunk (lifted lift rest)) refl refl refl quiet reason,
        ap (λ t. t +++ last.text_delta)
            ((append_all_lem default_tokens cs (omega arith)).0 ∙ texts_nil (texts cs) ∙ whole),
        append-finish_reason before last r reason,
      )
