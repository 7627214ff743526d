-- ===== src/Llm/Anthropic.antt =====
-- llm/anthropic_provider.py: the messages of a request in Anthropic's form, the tools' definitions,
-- and a response read back. `json.loads`, with `none` for its errors, `json.dumps` and the test
-- whether a float is zero are arguments; Api has the constructor and the call of the API.
pub mod Messages
pub mod Definitions
pub mod Responses
pub mod Api
use yellowbullv.Shared.{
  ℕ, zero, suc, ◌+◌, String, Option, none, some, Bool, true, false, List, [], ◌∷◌, ◌++◌, not,
  is_empty, or_empty, cat, concat, if◌then◌else◌,
}
use yellowbullv.Shared.Json.{
  ℤ, pos, negsuc, Json, null, bool, int, float, str, arr, obj, Items, nil, cons, Fields, end, field,
  fields,
}
use yellowbullv.Dict.{Dict, lookup, insert, keys, values}
use yellowbullv.Session.{ToolCall}
use yellowbullv.Llm.{Role, LlmMessage, LlmResponse, StreamChunk, text_chunk, call_chunks}

pub data Block : Type 0 where
  text_block : String → Block
  tool_use : (id name : String) → Json → Block
  tool_result : Option String → String → Block

-- The content of a message is a text or a list of blocks.
pub data Content : Type 0 where
  plain_text : String → Content
  blocks : List Block → Content

pub record Turn : Type 0 where
  pub from_user : Bool
  pub content : Content

abbrev pub results_turn : Block → Turn
results_turn r = record { from_user = true; content = blocks (r ∷ []) }

-- The branch for a tool's message: the block goes into the last message if that is the user's, or
-- into a new one. `none` is the `AttributeError` where the user's content is a text.
unfoldable pub add_result : Block → List Turn → Option (List Turn)
add_result r [] = some (results_turn r ∷ [])
add_result r (t ∷ []) = elim t.from_user [
  | false ↦ some (t ∷ results_turn r ∷ [])
  | true ↦ elim t.content [
    | plain_text s ↦ none
    | blocks bs ↦ some (record t { content = blocks (bs ++ r ∷ []) } ∷ [])
  ]
]
add_result r (t ∷ u ∷ ts) = elim (add_result r (u ∷ ts)) [ none ↦ none | some us ↦ some (t ∷ us) ]

-- The truth value of a JSON value.
abbrev pub is_truthy : (String → Bool) → Json → Bool
is_truthy zero_float null = false
is_truthy zero_float (bool b) = b
is_truthy zero_float (int (pos zero)) = false
is_truthy zero_float (int (pos (suc n))) = true
is_truthy zero_float (int (negsuc n)) = true
is_truthy zero_float (float t) = not (zero_float t)
is_truthy zero_float (str s) = not (is_empty s)
is_truthy zero_float (arr nil) = false
is_truthy zero_float (arr (cons v vs)) = true
is_truthy zero_float (obj end) = false
is_truthy zero_float (obj (field k v fs)) = true

abbrev texts_of : Option String → List Block
texts_of none = []
texts_of (some s) = if is_empty s then [] else text_block s ∷ []

abbrev calls_of : Option (List ToolCall) → List ToolCall
calls_of none = []
calls_of (some cs) = cs

module _ (loads : String → Option Json) (zero_float : String → Bool) where
  -- `_parse_args`: `json.loads(args) or {}`, and `{}` where it raises
  unfoldable pub parse_args : String → Json
  parse_args args = elim (loads args) [
    | none ↦ obj end
    | some v ↦ if is_truthy zero_float v then v else obj end
  ]

  unfoldable pub uses : List ToolCall → List Block
  unfolding parse_args
  uses [] = []
  uses (c ∷ cs) = tool_use c.id c.name (parse_args c.arguments) ∷ uses cs

  unfoldable pub assistant_turn : LlmMessage → Turn
  unfolding uses
  assistant_turn m = record {
    from_user = false;
    content = blocks (texts_of m.content ++ uses (calls_of m.tool_calls));
  }

  -- The loop over the messages in `chat`, from the system prompt and the messages so far.
  unfoldable pub format_messages :
      List LlmMessage → Option String → List Turn → Option (Option String × List Turn)
  format_messages [] system_prompt turns = some (system_prompt, turns)
  format_messages (m ∷ ms) system_prompt turns = elim m.role [
    | Role.system ↦ format_messages ms m.content turns
    | Role.tool ↦ elim (add_result (tool_result m.tool_call_id (or_empty m.content)) turns) [
      | none ↦ none
      | some turns' ↦ format_messages ms system_prompt turns'
    ]
    | Role.assistant ↦ format_messages ms system_prompt (turns ++ assistant_turn m ∷ [])
    | Role.user ↦
        format_messages ms system_prompt
          (turns ++ record { from_user = true; content = plain_text (or_empty m.content) } ∷ [])
  ]

-- `tool.get(key, default)`
abbrev get_or : Json → Option Json → Json
get_or default none = default
get_or default (some v) = v

-- One round of `_format_tools`. `none` is the `KeyError` of `tool["name"]`.
unfoldable pub format_tool : Json → Option Json
unfolding lookup
format_tool (obj fs) = elim (lookup "name" (fields fs)) [
  | none ↦ none
  | some name ↦ some (
      obj (
        field "name" name (
          field "description" (get_or (str "") (lookup "description" (fields fs)))
            (field "input_schema" (get_or (obj end) (lookup "parameters" (fields fs))) end))))
]
format_tool v = none

unfoldable pub format_tools : List Json → Option (List Json)
format_tools [] = some []
format_tools (t ∷ ts) =
    let rest = format_tools ts in
    elim (format_tool t) [
      | none ↦ none
      | some u ↦ elim rest [ none ↦ none | some us ↦ some (u ∷ us) ]
    ]

-- A block of a response; a block of another type is skipped.
pub data Answered : Type 0 where
  said : String → Answered
  used : (id name : String) → Json → Answered
  skipped : Answered

-- The usage of a response: input and output tokens.
abbrev usage_of : Option (ℕ × ℕ) → Option Json
usage_of none = none
usage_of (some (i, o)) = some (
    obj (
      field "prompt_tokens" (int (pos i))
        (field "completion_tokens" (int (pos o)) (field "total_tokens" (int (pos (i + o))) end))))

abbrev pub or_none : String → Option String
or_none s = if is_empty s then none else some s

module _ (dumps : Json → String) (zero_float : String → Bool) where
  -- `json.dumps(block.input or {})`
  abbrev pub input_text : Json → String
  input_text v = dumps (if is_truthy zero_float v then v else obj end)

  -- The loop over the blocks, from the content and the calls so far.
  unfoldable pub read_blocks : List Answered → String → List ToolCall → String × List ToolCall
  read_blocks [] content calls = (content, calls)
  read_blocks (said text ∷ bs) content calls = read_blocks bs (cat content text) calls
  read_blocks (used id name v ∷ bs) content calls =
      read_blocks bs content
        (calls ++ record { id = id; name = name; arguments = input_text v } ∷ [])
  read_blocks (skipped ∷ bs) content calls = read_blocks bs content calls

  unfoldable pub parse_response : List Answered → Option (ℕ × ℕ) → LlmResponse
  unfolding read_blocks
  parse_response bs usage =
      let (content, calls) = read_blocks bs "" [] in
      record { content = or_none content; tool_calls = calls; usage = usage_of usage }

-- An event of a stream: the start of a tool's block, a piece of text, a piece of a tool's input.
pub data StreamEvent : Type 0 where
  starts_tool : (id name : String) → StreamEvent
  text_delta partial_json : String → StreamEvent
  other_event : StreamEvent

abbrev last_key : List String → Option String
last_key [] = none
last_key (k ∷ []) = some k
last_key (k ∷ j ∷ ks) = last_key (j ∷ ks)

abbrev longer : String → Option ToolCall → Dict ToolCall → String → Dict ToolCall
longer id none calls piece = calls
longer id (some c) calls piece = insert id (record c { arguments = cat c.arguments piece }) calls

-- A piece of input goes to the call whose entry is the last one.
unfoldable pub add_piece : String → Dict ToolCall → Dict ToolCall
add_piece piece calls = elim (last_key (keys calls)) [
  | none ↦ calls
  | some id ↦ longer id (lookup id calls) calls piece
]

-- `_stream_chat`: what it yields for the events, with the calls so far.
unfoldable pub stream_chat : List StreamEvent → Dict ToolCall → List StreamChunk
stream_chat [] calls = call_chunks (values calls)
stream_chat (starts_tool id name ∷ es) calls =
    stream_chat es (insert id (record { id = id; name = name; arguments = "" }) calls)
stream_chat (text_delta text ∷ es) calls =
    let rest = stream_chat es calls in if is_empty text then rest else text_chunk text ∷ rest
stream_chat (partial_json piece ∷ es) calls =
    stream_chat es (if is_empty piece then calls else add_piece piece calls)
stream_chat (other_event ∷ es) calls = stream_chat es calls
