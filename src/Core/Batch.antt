-- ===== src/Core/Batch.antt =====
-- crates/inference-core/src/batch.rs: the parameters of sampling, messages and batches. Texts and floats
-- of the parameters of sampling are parameters.
use Prim.Native.String.{String}
use Prim.Native.Nat.{max}
use rakka_inference.Base.{Bool, List, Option, max, ℕ}

pub record SamplingParams (F Text : Type 0) : Type 0 where
  pub temperature : Option F
  pub top_p : Option F
  pub top_k : Option ℕ
  pub max_tokens : Option ℕ
  pub stop : List Text
  pub presence_penalty : Option F
  pub frequency_penalty : Option F
  pub seed : Option ℕ

pub data Role : Type 0 where
  system user assistant tool : Role

pub data ContentPart : Type 0 where
  text : String → ContentPart
  image_base64 : (mime base64 : String) → ContentPart
  image_url : (url : String) → ContentPart

pub data MessageContent : Type 0 where
  whole_text : String → MessageContent
  parts : List ContentPart → MessageContent

pub record Message : Type 0 where
  pub role : Role
  pub content : MessageContent

pub record ExecuteBatch (F : Type 0) : Type 0 where
  pub request_id : String
  pub model : String
  pub messages : List Message
  pub sampling : SamplingParams F String
  pub stream : Bool
  pub estimated_tokens : ℕ

-- `estimated_tokens()`.
estimate : {F : Type 0} → ExecuteBatch F → ℕ
estimate b = max b.estimated_tokens 1
