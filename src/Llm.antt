-- ===== src/Llm.antt =====
-- llm/base.py: the messages that a model is sent and the response that comes back.
pub mod Anthropic
pub mod OpenAi
pub mod Factory
mod Tests
use yellowbullv.Shared.{
  ℕ, String, Option, none, some, Bool, true, false, List, [], ◌∷◌, is_empty, if◌then◌else◌,
}
use yellowbullv.Shared.Json.{Json}
use yellowbullv.Session.{ToolCall}

pub data Role : Type 0 where
  system user assistant tool : Role

pub record LlmMessage : Type 0 where
  pub role : Role
  pub content : Option String
  pub tool_calls : Option (List ToolCall)
  pub tool_call_id : Option String

-- A message with a role and a content alone.
abbrev pub plain : Role → Option String → LlmMessage
plain role content = record {
  role = role;
  content = content;
  tool_calls = none;
  tool_call_id = none;
}

pub record LlmResponse : Type 0 where
  pub content : Option String
  pub tool_calls : List ToolCall
  pub usage : Option Json

-- How `chat` of a provider ends: with a response, or with an exception.
pub data Reply : Type 0 where
  replied : LlmResponse → Reply
  llm_error : String → Reply

-- An instance of a provider, and the keywords that it hands to the client of its API. A float is its
-- text.
pub record Provider : Type 0 where
  pub model_name : String
  pub temperature : String
  pub max_tokens : ℕ

pub record ClientKwargs : Type 0 where
  pub api_key : String
  pub timeout : String
  pub base_url : Option String

-- `if base_url:`
abbrev pub some_url : Option String → Option String
some_url none = none
some_url (some u) = if is_empty u then none else some u

-- `if tools:`
abbrev pub some_tools : Option (List Json) → Option (List Json)
some_tools none = none
some_tools (some []) = none
some_tools (some (t ∷ ts)) = some (t ∷ ts)

pub record StreamChunk : Type 0 where
  pub delta : String
  pub done : Bool
  pub tool_call : Option ToolCall

-- `StreamChunk(delta=…)`, `StreamChunk(tool_call=…)` and `StreamChunk(done=True)`
abbrev pub text_chunk : String → StreamChunk
text_chunk text = record { delta = text; done = false; tool_call = none }

abbrev pub call_chunk : ToolCall → StreamChunk
call_chunk call = record { delta = ""; done = false; tool_call = some call }

abbrev pub last_chunk : StreamChunk
last_chunk = record { delta = ""; done = true; tool_call = none }

-- The end of a stream: the calls, and the mark of the end.
unfoldable pub call_chunks : List ToolCall → List StreamChunk
call_chunks [] = last_chunk ∷ []
call_chunks (c ∷ cs) = call_chunk c ∷ call_chunks cs
