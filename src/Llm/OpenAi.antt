-- ===== src/Llm/OpenAi.antt =====
-- llm/openai_provider.py: the messages of a request in OpenAI's form, a response read back, and the
-- stream, in which the pieces of the tool calls are put together. Api has the constructor and the
-- call of the API.
pub mod Stream
pub mod Api
use yellowbullv.Shared.{
  ℕ, String, Option, none, some, Bool, true, false, List, [], ◌∷◌, ◌==◌, is_empty, is_nonempty,
  or_empty, cat, map, if◌then◌else◌,
}
use yellowbullv.Shared.Json.{pos, Json, int, obj, field, end}
use yellowbullv.Session.{ToolCall}
use yellowbullv.Llm.{Role, LlmMessage, LlmResponse, StreamChunk, text_chunk, call_chunks}

-- An entry of a request, by the keys that it has.
pub data Entry : Type 0 where
  entry : Role → Option String → Entry
  tool_entry : String → Option String → Entry
  calls_entry : Option String → List ToolCall → Entry

-- The assistant's branch: `and msg.tool_calls`.
abbrev pub assistant_entry : Option String → Option (List ToolCall) → Entry
assistant_entry content none = entry Role.assistant content
assistant_entry content (some []) = entry Role.assistant content
assistant_entry content (some (c ∷ cs)) = calls_entry content (c ∷ cs)

unfoldable pub format_message : LlmMessage → Entry
format_message m = elim m.role [
  | Role.tool ↦ tool_entry (or_empty m.content) m.tool_call_id
  | Role.assistant ↦ assistant_entry m.content m.tool_calls
  | Role.system ↦ entry Role.system m.content
  | Role.user ↦ entry Role.user m.content
]

unfoldable pub format_messages : List LlmMessage → List Entry
format_messages ms = map format_message ms

-- A call of a response: its id, and the name and the arguments if it has a function.
pub record CallAnswer : Type 0 where
  pub id : String
  pub function : Option (String × String)

unfoldable pub call_of : CallAnswer → ToolCall
call_of a = elim a.function [
  | none ↦ record { id = a.id; name = ""; arguments = "{}" }
  | some (name, arguments) ↦ record { id = a.id; name = name; arguments = arguments }
]

pub record Usage : Type 0 where
  pub prompt_tokens : ℕ
  pub completion_tokens : ℕ
  pub total_tokens : ℕ

abbrev usage_of : Option Usage → Option Json
usage_of none = none
usage_of (some u) = some (
    obj (
      field "prompt_tokens" (int (pos u.prompt_tokens)) (
        field "completion_tokens" (int (pos u.completion_tokens))
          (field "total_tokens" (int (pos u.total_tokens)) end))))

-- The first choice, if there is one, is its content and its calls.
unfoldable pub parse_response :
    Option (Option String × List CallAnswer) → Option Usage → LlmResponse
parse_response none usage = record { content = none; tool_calls = []; usage = none }
parse_response (some (content, calls)) usage = record {
  content = content;
  tool_calls = map call_of calls;
  usage = usage_of usage;
}

-- A piece of a tool call in a stream; without a function it has neither name nor arguments.
pub record CallDelta : Type 0 where
  pub index : ℕ
  pub id : Option String
  pub name : Option String
  pub arguments : Option String

-- A chunk without a choice, or one with a piece of text and pieces of calls.
pub data Chunk : Type 0 where
  no_choice : Chunk
  choice : Option String → List CallDelta → Chunk

-- `accumulated_tool_calls`, in insertion order
abbrev pub Calls : Type 0
Calls = List (ℕ × ToolCall)

-- `if x: old = x`
abbrev pub newer : Option String → String → String
newer none old = old
newer (some x) old = if is_empty x then old else x

abbrev pub merge : CallDelta → ToolCall → ToolCall
merge tc call = record {
  id = newer tc.id call.id;
  name = newer tc.name call.name;
  arguments = cat call.arguments (or_empty tc.arguments);
}

abbrev pub fresh_call : CallDelta → ToolCall
fresh_call tc = record { id = or_empty tc.id; name = ""; arguments = "" }

-- One round of the loop over `delta.tool_calls`.
unfoldable pub take_delta : CallDelta → Calls → Calls
take_delta tc [] = (tc.index, merge tc (fresh_call tc)) ∷ []
take_delta tc ((j, call) ∷ calls) =
    let rest = take_delta tc calls in
    if j == tc.index then (j, merge tc call) ∷ calls else (j, call) ∷ rest

unfoldable pub accumulate : List CallDelta → Calls → Calls
unfolding take_delta
accumulate [] calls = calls
accumulate (tc ∷ tcs) calls = accumulate tcs (take_delta tc calls)

-- `_stream_chat`: what it yields for the chunks, with the calls so far.
unfoldable pub stream_chat : List Chunk → Calls → List StreamChunk
stream_chat [] calls = call_chunks (map (λ c. c.1) calls)
stream_chat (no_choice ∷ cs) calls = stream_chat cs calls
stream_chat (choice content tcs ∷ cs) calls =
    text_chunk (or_empty content) ∷ stream_chat cs (accumulate tcs calls)
