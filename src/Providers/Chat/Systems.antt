-- ===== src/Providers/Chat/Systems.antt =====
-- What the loop over the messages of a batch collects.
use Prim.Native.String.{String}
use Prim.Native.String.{◌++◌ as ◌+++◌}
use text.Mathlib.TextLemmas.{append_assoc as texts_assoc, append-nil as texts_nil}
use mathlib.Core.List.{append_assoc, append-nil}
use rakka_inference.Base.{
  Bool-cases, List, Option, [], ap, if◌then◌else◌, inl, inr, map, none, refl, some, sym, ◌++◌, ◌∙◌,
  ◌∷◌, ◌≡◌,
}
use rakka_inference.Providers.Chat.{is_system, push_content, push_system, split_system}
use rakka_inference.Core.Batch.{Message, MessageContent, parts, whole_text}

unfoldable pub text_in : MessageContent → List String
text_in (whole_text t) = t ∷ []
text_in (parts ps) = []

-- The texts that the loop collects from the system messages: none from one made of parts.
unfoldable pub system_texts : List Message → List String
unfolding text_in
system_texts [] = []
system_texts (m ∷ ms) = (if is_system m then text_in m.content else []) ++ system_texts ms

unfoldable pub others : List Message → List Message
others [] = []
others (m ∷ ms) = if is_system m then others ms else m ∷ others ms

-- Texts on lines of their own.
after : List String → String
after [] = ""
after (t ∷ ts) = "\n" +++ t +++ after ts

pub lines : List String → Option String
unfolding after
lines [] = none
lines (t ∷ ts) = some (t +++ after ts)

lines_behind : Option String → List String → Option String
unfolding after lines
lines_behind none ts = lines ts
lines_behind (some s) ts = some (s +++ after ts)

behind_nothing : (before : Option String) → before ≡ lines_behind before []
unfolding lines_behind lines after
behind_nothing none = refl
behind_nothing (some s) = ap some (sym (texts_nil s))

module _ {M : Type 0} (convert : Message → M) where
  pushed :
      (before : Option String) (c : MessageContent) (ts : List String)
      → lines_behind (push_content before c) ts ≡ lines_behind before (text_in c ++ ts)
  unfolding lines_behind lines after push_content push_system text_in
  pushed none (whole_text t) ts = refl
  pushed (some s) (whole_text t) ts =
      ap some
        (texts_assoc s ("\n" +++ t) (after ts) ∙ ap (λ x. s +++ x) (texts_assoc "\n" t (after ts)))
  pushed before (parts ps) ts = refl

  split_system_from :
      (before : Option String) (messages : List M) (ms : List Message)
      → split_system convert before messages ms
        ≡ (lines_behind before (system_texts ms), messages ++ map convert (others ms))
  unfolding split_system system_texts others
  split_system_from before messages [] = λ i. (behind_nothing before i, sym (append-nil messages) i)
  split_system_from before messages (m ∷ ms) = elim (Bool-cases (is_system m)) [
    | inl yes_system ↦
        rw
          (
            yes_system,
            split_system,
            system_texts,
            others,
            ← pushed before m.content (system_texts ms),
          )
          (split_system_from (push_content before m.content) messages ms)
    | inr not_system ↦
        rw
          (
            not_system,
            split_system,
            system_texts,
            others,
            ← append_assoc messages (convert m ∷ []) (map convert (others ms)),
          )
          (split_system_from before (messages ++ convert m ∷ []) ms)
  ]

  -- The texts collected come out on lines of their own, and every message that is not the system's is
  -- converted, in order.
  pub split_system_lem :
      (ms : List Message)
      → split_system convert none [] ms ≡ (lines (system_texts ms), map convert (others ms))
  unfolding lines_behind
  split_system_lem ms = split_system_from none [] ms
