-- ===== src/Providers/OpenAi/Answers.antt =====
-- What a request makes of a stream of OpenAI.
use Prim.Native.String.{String}
use Prim.Native.String.{◌++◌ as ◌+++◌}
use text.Mathlib.TextLemmas.{
  append_assoc as texts_assoc, append-nil as texts_nil, nil-append as nil_texts,
}
use rakka_inference.Base.{
  All, All-map, Bool, Bool-cases, List, Option, Option-cases, Result, Result-cases, [], ap, err,
  false, if◌then◌else◌, inl, inr, map, none, ok, refl, some, sym, true, ◌++◌, ◌||◌, ◌∙◌, ◌∷◌, ◌≡◌,
}
use rakka_inference.Providers.Chat.{SseChunk, Values, lifted}
use rakka_inference.Providers.Chat.Streams.{IsQuiet, said_all, skipped, spoken, stream-answers}
use rakka_inference.Providers.OpenAi.{
  ChatChunk, ChoiceDelta, gather, is_done, lift_chunk, lift_parsed, map_finish_reason, push,
  reason_of,
}
use rakka_inference.Core.Tokens.{FinishReason, Tokens}
use rakka_inference.Core.Error.{InferenceError}
use rakka_inference.Runtime.Request.{chunk, new, run}

-- What the choices of a chunk say, one after the other.
content_or_nothing : Option String → String
content_or_nothing none = ""
content_or_nothing (some s) = s

module _ (v : Values) where
  pub contents : List (ChoiceDelta v.Json) → String
  contents [] = ""
  contents (ch ∷ choices) = content_or_nothing ch.delta.content +++ contents choices

  pub none_finished : List (ChoiceDelta v.Json) → Bool
  none_finished [] = true
  none_finished (ch ∷ choices) = elim ch.finish_reason [
    | none ↦ none_finished choices
    | some s ↦ false
  ]

  push_lem : (acc : String) (s : Option String) → push acc s ≡ acc +++ content_or_nothing s
  unfolding push content_or_nothing
  push_lem acc none = sym (texts_nil acc)
  push_lem acc (some s) = refl

  gather-text :
      (acc : String) (reason : Option FinishReason) (choices : List (ChoiceDelta v.Json))
      → (gather v acc reason choices).0 ≡ acc +++ contents choices
  unfolding gather contents
  gather-text acc reason [] = sym (texts_nil acc)
  gather-text acc reason (ch ∷ choices) =
      gather-text (push acc ch.delta.content) (reason_of ch.finish_reason) choices
      ∙ ap (λ t. t +++ contents choices) (push_lem acc ch.delta.content)
      ∙ texts_assoc acc (content_or_nothing ch.delta.content) (contents choices)

  gather-none :
      (acc : String) (choices : List (ChoiceDelta v.Json))
      → none_finished choices ≡ true
      → (gather v acc none choices).1 ≡ none
  unfolding gather none_finished reason_of
  gather-none acc [] h = refl
  gather-none acc (ch ∷ choices) h = elim (Option-cases ch.finish_reason) [
    | inl e ↦
        rw (e, gather, reason_of)
          (gather-none (push acc ch.delta.content) choices (sym (rw (e, none_finished) refl) ∙ h))
    | inr (s, e) ↦ absurd (cc (e, h))
  ]

  module _ (parse : String → Result (ChatChunk v.Json) String) (request_id : String) where
    pub told_by : SseChunk → String
    told_by sc =
        if is_done v parse request_id sc
        then ""
        else elim (parse sc.payload) [ err e ↦ "" | ok parsed ↦ contents parsed.choices ]

    pub in_progress : SseChunk → Bool
    in_progress sc =
        is_done v parse request_id sc
        || elim (parse sc.payload) [ err e ↦ false | ok parsed ↦ none_finished parsed.choices ]

    abbrev Quiet : SseChunk → Type 0
    Quiet = IsQuiet (lift_chunk v parse request_id) told_by

    chunk-IsQuiet : (sc : SseChunk) → in_progress sc ≡ true → Quiet sc
    unfolding in_progress told_by lift_chunk lift_parsed
    chunk-IsQuiet sc h = elim (Bool-cases (is_done v parse request_id sc)) [
      | inl done ↦ skipped (rw (done, lift_chunk) refl) (rw (done, told_by) refl)
      | inr more ↦ elim (Result-cases (parse sc.payload)) [
        | inl (parsed, read) ↦
            spoken (lift_parsed v parse request_id parsed) (rw (more, read, lift_chunk) refl)
              (gather-none "" parsed.choices (sym (rw (more, read, in_progress) refl) ∙ h))
              (gather-text "" none parsed.choices ∙ nil_texts _ ∙ rw (more, read, told_by) refl)
        | inr (e, failed) ↦ absurd (cc (more, failed, h))
      ]
    ]

    -- Chunks that finish no choice, then one whose only choice has a reason, and then anything: a new
    -- request delivers one answer, with what the choices say in order and with this reason.
    chunks-answers :
        (talk : List SseChunk) (closing : SseChunk) (parsed : ChatChunk v.Json)
        (choice : ChoiceDelta v.Json) (s : String) (r : FinishReason)
        (rest : List (Result SseChunk InferenceError))
        → All (λ (sc : SseChunk). in_progress sc ≡ true) talk
        → is_done v parse request_id closing ≡ false
        → parse closing.payload ≡ ok parsed
        → parsed.choices ≡ choice ∷ []
        → choice.finish_reason ≡ some s
        → map_finish_reason s ≡ some r
        → (answer : Tokens) × ((run new (
              map chunk
                (lifted (lift_chunk v parse request_id) (map ok talk ++ ok closing ∷ rest)))).done
            ≡ answer ∷ [])
          × (answer.text
              ≡ said_all (lift_chunk v parse request_id) told_by talk
                +++ content_or_nothing choice.delta.content)
          × (answer.finish_reason ≡ some r)
    unfolding lift_chunk lift_parsed gather contents reason_of
    chunks-answers talk closing parsed choice s r rest all more read one e known =
        let said : (gather v "" none parsed.choices).0 ≡ content_or_nothing choice.delta.content =
          gather-text "" none parsed.choices ∙ nil_texts _ ∙ ap contents one ∙ texts_nil _ in
        let ends : (gather v "" none parsed.choices).1 ≡ some r =
          ap (λ l. (gather v "" none l).1) one ∙ ap reason_of e ∙ known in
        let (answer, done, whole, reason) =
          stream-answers (lift_chunk v parse request_id) told_by talk closing
            (lift_parsed v parse request_id parsed) r rest
            (All-map (λ sc. in_progress sc ≡ true) Quiet chunk-IsQuiet talk all)
            (rw (more, read, lift_chunk) refl) ends in
        (
          answer,
          done,
          whole ∙ ap (λ t. said_all (lift_chunk v parse request_id) told_by talk +++ t) said,
          reason,
        )
