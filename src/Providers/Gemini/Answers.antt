-- ===== src/Providers/Gemini/Answers.antt =====
-- What a request makes of a stream of Gemini, and what a request to Gemini says.
use Prim.Native.String.{String}
use Prim.Native.String.{◌++◌ as ◌+++◌}
use package.text.Mathlib.TextLemmas.{
  append_assoc as texts_assoc, append-nil as texts_nil, nil-append as nil_texts,
}
use rakka_inference.Base.{
  All, All-map, Bool, Bool-cases, List, Option, Option-cases, Result, Result-cases, [], ap, err,
  false, if◌then◌else◌, inl, inr, map, none, ok, refl, some, sym, true, ◌++◌, ◌||◌, ◌∙◌, ◌∷◌, ◌≡◌,
}
use rakka_inference.Providers.Chat.{SseChunk, lifted}
use rakka_inference.Providers.Chat.Streams.{IsQuiet, said_all, skipped, spoken, stream-answers}
use rakka_inference.Providers.Chat.Systems.{lines, others, split_system_lem, system_texts}
use rakka_inference.Providers.Gemini.{
  Candidate, GenerateContentResponse, chunk_with, converted, from_batch, gather, instruction, later,
  lift_chunk, lift_parsed, map_finish, push_content, push_parts,
}
use rakka_inference.Core.Batch.{ExecuteBatch, text}
use rakka_inference.Core.Tokens.{FinishReason, Tokens}
use rakka_inference.Core.Error.{InferenceError}
use rakka_inference.Runtime.Request.{chunk, new, run}
use rakka_inference.Base.Text.{str_eq}

-- What the candidates of an answer say, one after the other.
parts_text : List (Option String) → String
parts_text [] = ""
parts_text (none ∷ ps) = parts_text ps
parts_text (some t ∷ ps) = t +++ parts_text ps

content_text : Option (List (Option String)) → String
unfolding parts_text
content_text none = ""
content_text (some ps) = parts_text ps

pub contents : List Candidate → String
contents [] = ""
contents (c ∷ cs) = content_text c.content +++ contents cs

pub none_finished : List Candidate → Bool
none_finished [] = true
none_finished (c ∷ cs) = elim c.finish_reason [ none ↦ none_finished cs | some s ↦ false ]

push_parts_lem :
    (acc : String) (ps : List (Option String)) → push_parts acc ps ≡ acc +++ parts_text ps
unfolding push_parts parts_text
push_parts_lem acc [] = sym (texts_nil acc)
push_parts_lem acc (none ∷ ps) = push_parts_lem acc ps
push_parts_lem acc (some t ∷ ps) = push_parts_lem (acc +++ t) ps ∙ texts_assoc acc t (parts_text ps)

push_content_lem :
    (acc : String) (c : Option (List (Option String))) → push_content acc c ≡ acc +++ content_text c
unfolding push_content content_text
push_content_lem acc none = sym (texts_nil acc)
push_content_lem acc (some ps) = push_parts_lem acc ps

gather-text :
    (acc : String) (reason : Option FinishReason) (cs : List Candidate)
    → (gather acc reason cs).0 ≡ acc +++ contents cs
unfolding gather contents
gather-text acc reason [] = sym (texts_nil acc)
gather-text acc reason (c ∷ cs) =
    gather-text (push_content acc c.content) (later reason c.finish_reason) cs
    ∙ ap (λ t. t +++ contents cs) (push_content_lem acc c.content)
    ∙ texts_assoc acc (content_text c.content) (contents cs)

gather-none :
    (acc : String) (cs : List Candidate) → none_finished cs ≡ true → (gather acc none cs).1 ≡ none
unfolding gather none_finished later
gather-none acc [] h = refl
gather-none acc (c ∷ cs) h = elim (Option-cases c.finish_reason) [
  | inl e ↦
      rw (e, gather, later)
        (gather-none (push_content acc c.content) cs (sym (rw (e, none_finished) refl) ∙ h))
  | inr (s, e) ↦ absurd (cc (e, h))
]

-- A request has the texts collected from the system messages (none from one made of parts), on lines of
-- their own, as its instruction, where there is one, and every other message, in order.
from_batch-others :
    {F Safety : Type 0} (b : ExecuteBatch F) (safety : List Safety)
    → ((from_batch b safety).system_instruction ≡ instruction (lines (system_texts b.messages)))
      × ((from_batch b safety).contents ≡ map converted (others b.messages))
unfolding from_batch
from_batch-others b safety =
    let e = split_system_lem converted b.messages in (λ i. instruction (e i).0, λ i. (e i).1)

module _ (Json : Type 0) (parse : String → Result GenerateContentResponse String)
    (request_id : String) where
  pub told_by : SseChunk → String
  told_by sc =
      if str_eq sc.payload ""
      then ""
      else elim (parse sc.payload) [ err e ↦ "" | ok parsed ↦ contents parsed.candidates ]

  pub in_progress : SseChunk → Bool
  in_progress sc =
      str_eq sc.payload ""
      || elim (parse sc.payload) [ err e ↦ false | ok parsed ↦ none_finished parsed.candidates ]

  abbrev Quiet : SseChunk → Type 0
  Quiet = IsQuiet (lift_chunk Json parse request_id) told_by

  chunk-IsQuiet : (sc : SseChunk) → in_progress sc ≡ true → Quiet sc
  unfolding in_progress told_by lift_chunk lift_parsed chunk_with
  chunk-IsQuiet sc h = elim (Bool-cases (str_eq sc.payload "")) [
    | inl empty ↦ skipped (rw (empty, lift_chunk) refl) (rw (empty, told_by) refl)
    | inr more ↦ elim (Result-cases (parse sc.payload)) [
      | inl (parsed, read) ↦
          spoken (lift_parsed Json parse request_id parsed) (rw (more, read, lift_chunk) refl)
            (gather-none "" parsed.candidates (sym (rw (more, read, in_progress) refl) ∙ h))
            (gather-text "" none parsed.candidates ∙ nil_texts _ ∙ rw (more, read, told_by) refl)
      | inr (e, failed) ↦ absurd (cc (more, failed, h))
    ]
  ]

  -- Answers that finish no candidate, then one whose only candidate has a reason, and then anything: a
  -- new request delivers one answer, with what the candidates say in order and with this reason.
  candidates-answers :
      (talk : List SseChunk) (closing : SseChunk) (parsed : GenerateContentResponse)
      (candidate : Candidate) (s : String) (rest : List (Result SseChunk InferenceError))
      → All (λ (sc : SseChunk). in_progress sc ≡ true) talk
      → str_eq closing.payload "" ≡ false
      → parse closing.payload ≡ ok parsed
      → parsed.candidates ≡ candidate ∷ []
      → candidate.finish_reason ≡ some s
      → (answer : Tokens) × ((run new (
            map chunk
              (lifted (lift_chunk Json parse request_id) (map ok talk ++ ok closing ∷ rest)))).done
          ≡ answer ∷ [])
        × (answer.text
            ≡ said_all (lift_chunk Json parse request_id) told_by talk
              +++ content_text candidate.content)
        × (answer.finish_reason ≡ some (map_finish s))
  unfolding lift_chunk lift_parsed gather contents later chunk_with
  candidates-answers talk closing parsed candidate s rest all more read one e =
      let said : (gather "" none parsed.candidates).0 ≡ content_text candidate.content =
        gather-text "" none parsed.candidates ∙ nil_texts _ ∙ ap contents one ∙ texts_nil _ in
      let ends : (gather "" none parsed.candidates).1 ≡ some (map_finish s) =
        ap (λ l. (gather "" none l).1) one ∙ ap (later none) e in
      let (answer, done, whole, reason) =
        stream-answers (lift_chunk Json parse request_id) told_by talk closing
          (lift_parsed Json parse request_id parsed) (map_finish s) rest
          (All-map (λ sc. in_progress sc ≡ true) Quiet chunk-IsQuiet talk all)
          (rw (more, read, lift_chunk) refl) ends in
      (
        answer,
        done,
        whole ∙ ap (λ t. said_all (lift_chunk Json parse request_id) told_by talk +++ t) said,
        reason,
      )
