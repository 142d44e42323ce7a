-- ===== src/Runtime/Request/Answers.antt =====
-- The chunk that ends a request.
use rakka_inference.Runtime.Request.{
  RequestActor, RequestMsg, chunk, end, finish, handle, run, send,
}
use rakka_inference.Core.Tokens.{FinishReason, TokenChunk, append, append_all}
use rakka_inference.Base.{
  All, Bool, List, Option, [], ap, false, if◌then◌else◌, map, none, ok, refl, some, true, ◌++◌, ◌∙◌,
  ◌∷◌, ◌≡◌,
}

module _ {Json : Type 0} where
  abbrev pub told : TokenChunk Json → RequestMsg Json
  told c = chunk (ok c)

  with_chunk : RequestActor Json → TokenChunk Json → RequestActor Json
  with_chunk a c = send (record a { accumulator = append a.accumulator c }) (ok c)

  by_reason : RequestActor Json → Option FinishReason → RequestActor Json
  by_reason a none = a
  by_reason a (some r) = end a

  handled :
      (a : RequestActor Json) (c : TokenChunk Json)
      → handle a (told c) ≡ by_reason (with_chunk a c) c.finish_reason
  unfolding handle by_reason with_chunk
  handled a c = refl

  resumed : RequestActor Json → List (RequestMsg Json) → RequestActor Json
  resumed b ms = if b.stopped then b else run b ms

  run_step :
      (a : RequestActor Json) (c : TokenChunk Json) (ms : List (RequestMsg Json))
      → run a (told c ∷ ms) ≡ resumed (by_reason (with_chunk a c) c.finish_reason) ms
  unfolding run resumed
  run_step a c ms = ap (λ b. if b.stopped then b else run b ms) (handled a c)

  run_goes_on :
      (a : RequestActor Json) (c : TokenChunk Json) (ms : List (RequestMsg Json))
      → a.stopped ≡ false
      → c.finish_reason ≡ none
      → run a (told c ∷ ms) ≡ run (with_chunk a c) ms
  unfolding resumed by_reason with_chunk
  run_goes_on a c ms running e =
      run_step a c ms
      ∙ ap (λ r. resumed (by_reason (with_chunk a c) r) ms) e
      ∙ ap (λ (b : Bool). if b then with_chunk a c else run (with_chunk a c) ms) running

  delivered : (a : RequestActor Json) → a.has_done ≡ true → (end a).done ≡ a.accumulator ∷ a.done
  unfolding end finish
  delivered a has = rw has refl

  run_ends :
      (a : RequestActor Json) (c : TokenChunk Json) (r : FinishReason) (ms : List (RequestMsg Json))
      → a.has_done ≡ true
      → c.finish_reason ≡ some r
      → (run a (told c ∷ ms)).done ≡ append a.accumulator c ∷ a.done
  unfolding resumed by_reason with_chunk end
  run_ends a c r ms has e =
      ap (λ (b : RequestActor Json). b.done)
        (run_step a c ms ∙ ap (λ r'. resumed (by_reason (with_chunk a c) r') ms) e)
      ∙ delivered (with_chunk a c) has

  -- The first chunk with a reason ends the request: what is delivered is what the chunks up to it add up
  -- to, whatever comes behind it.
  pub run-answers :
      (a : RequestActor Json) (cs : List (TokenChunk Json)) (last : TokenChunk Json)
      (r : FinishReason) (ms : List (RequestMsg Json))
      → a.stopped ≡ false
      → a.has_done ≡ true
      → a.done ≡ []
      → All (λ (c : TokenChunk Json). c.finish_reason ≡ none) cs
      → last.finish_reason ≡ some r
      → (run a (map told cs ++ told last ∷ ms)).done
        ≡ append (append_all a.accumulator cs) last ∷ []
  unfolding append_all with_chunk
  run-answers a [] last r ms running has undelivered all e =
      run_ends a last r ms has e ∙ ap (λ d. append a.accumulator last ∷ d) undelivered
  run-answers a (c ∷ cs) last r ms running has undelivered all e =
      rw (run_goes_on a c (map told cs ++ told last ∷ ms) running all.0)
        (run-answers (with_chunk a c) cs last r ms running has undelivered all.1 e)
