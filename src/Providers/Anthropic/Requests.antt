-- ===== src/Providers/Anthropic/Requests.antt =====
-- What a request says.
use Prim.Native.String.{String}
use rakka_inference.Base.{
  Bool, List, [], ap, false, inl, inr, length, length-map, map, refl, subst, sym, true, ◌++◌, ◌∷◌,
  ◌≡◌, ◌⊎◌,
}
use rakka_inference.Providers.Chat.{Values, is_system}
use rakka_inference.Providers.Chat.Systems.{lines, others, split_system_lem, system_texts, text_in}
use rakka_inference.Providers.Anthropic.{
  MessagesMessage, content_json, converted, from_batch, role_name, serialize_part,
}
use rakka_inference.Core.Batch.{
  ContentPart, ExecuteBatch, Message, MessageContent, Role, assistant, parts, tool, user,
  whole_text,
}

-- Who speaks: the instructions of the system are no message, and a tool speaks as the user.
pub data IsRoleName : Role → String → Type 0 where
  user_named : IsRoleName user "user"
  tool_named : IsRoleName tool "user"
  assistant_named : IsRoleName assistant "assistant"

module _ (v : Values) where
  -- A text is a string; parts are an array with an element for each.
  pub data IsContent : MessageContent → v.Json → Type 0 where
    as_string : (t : String) → IsContent (whole_text t) (v.string t)
    as_array :
        (ps : List ContentPart) (js : List v.Json)
        → length js ≡ length ps
        → IsContent (parts ps) (v.array js)

  -- What becomes of the messages of a batch: the texts of the prompt, and the messages of the request.
  pub data IsSplit : List Message → List String → List (MessagesMessage v.Json) → Type 0 where
    ended : IsSplit [] [] []
    instructed :
        (m : Message) (t : String) {ms : List Message} {ts : List String}
        {xs : List (MessagesMessage v.Json)}
        → m.role ≡ Role.system
        → m.content ≡ whole_text t
        → IsSplit ms ts xs
        → IsSplit (m ∷ ms) (t ∷ ts) xs
    dropped :
        (m : Message) (ps : List ContentPart) {ms : List Message} {ts : List String}
        {xs : List (MessagesMessage v.Json)}
        → m.role ≡ Role.system
        → m.content ≡ parts ps
        → IsSplit ms ts xs
        → IsSplit (m ∷ ms) ts xs
    spoken :
        (m : Message) (x : MessagesMessage v.Json) {ms : List Message} {ts : List String}
        {xs : List (MessagesMessage v.Json)}
        → IsRoleName m.role x.role
        → IsContent m.content x.content
        → IsSplit ms ts xs
        → IsSplit (m ∷ ms) ts (x ∷ xs)

  role_cases : (r : Role) → (r ≡ Role.system) ⊎ IsRoleName r (role_name r)
  unfolding role_name
  role_cases Role.system = inl refl
  role_cases Role.user = inr user_named
  role_cases Role.assistant = inr assistant_named
  role_cases Role.tool = inr tool_named

  content_json-IsContent : (c : MessageContent) → IsContent c (content_json v c)
  unfolding content_json
  content_json-IsContent (whole_text t) = as_string t
  content_json-IsContent (parts ps) =
      as_array ps (map (serialize_part v) ps) (length-map (serialize_part v) ps)

  system_is : (m : Message) → m.role ≡ Role.system → is_system m ≡ true
  unfolding is_system
  system_is m e =
      ap
        (λ (r : Role). elim r [
          | Role.system ↦ true
          | user ↦ false
          | assistant ↦ false
          | tool ↦ false
        ])
        e

  speaker : Role → Bool
  speaker r = elim r [ Role.system ↦ true | user ↦ false | assistant ↦ false | tool ↦ false ]

  named : {r : Role} {n : String} → IsRoleName r n → speaker r ≡ false
  unfolding speaker
  named user_named = refl
  named tool_named = refl
  named assistant_named = refl

  spoken_is : (m : Message) {n : String} → IsRoleName m.role n → is_system m ≡ false
  unfolding is_system speaker
  spoken_is m name = named name

  -- A system message, by its content.
  instruct :
      (m : Message) (c : MessageContent) {ms : List Message} {ts : List String}
      {xs : List (MessagesMessage v.Json)}
      → m.role ≡ Role.system
      → m.content ≡ c
      → IsSplit ms ts xs
      → IsSplit (m ∷ ms) (text_in c ++ ts) xs
  unfolding text_in
  instruct m (whole_text t) e is rest = instructed m t e is rest
  instruct m (parts ps) e is rest = dropped m ps e is rest

  messages-IsSplit :
      (ms : List Message) → IsSplit ms (system_texts ms) (map (converted v) (others ms))
  unfolding system_texts others converted
  messages-IsSplit [] = ended
  messages-IsSplit (m ∷ ms) =
      let rest = messages-IsSplit ms in
      elim (role_cases m.role) [
        | inl e ↦ rw (system_is m e, system_texts, others) (instruct m m.content e refl rest)
        | inr name ↦
            rw (spoken_is m name, system_texts, others)
              (spoken m (converted v m) name (content_json-IsContent m.content) rest)
      ]

  -- Each message of a batch becomes one message of the request, in order, with its speaker and its
  -- content, but for those of the system: their texts are the prompt, on lines of their own, and one
  -- that is made of parts is dropped, so that nothing of it is in the prompt or in the messages.
  pub from_batch-IsSplit :
      {F : Type 0} (b : ExecuteBatch F)
      → (ts : List String) × IsSplit b.messages ts (from_batch v b).messages
        × ((from_batch v b).system ≡ lines ts)
  unfolding from_batch
  from_batch-IsSplit b =
      let e = split_system_lem (converted v) b.messages in
      (
        system_texts b.messages,
        subst (λ xs. IsSplit b.messages (system_texts b.messages) xs) (sym (λ i. (e i).1))
            (messages-IsSplit b.messages),
        λ i. (e i).0,
      )
