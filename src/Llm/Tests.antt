-- ===== src/Llm/Tests.antt =====
-- The providers on concrete messages, responses and streams. The codec knows the empty object only.
use yellowbullv.Shared.{
  ℕ, String, ◌≡◌, refl, Option, none, some, Bool, true, false, List, [], ◌∷◌, ◌++◌, is_some,
}
use yellowbullv.Shared.Json.{Json, obj, end}
use yellowbullv.Session.{MessageRole, Message}
use yellowbullv.Tools.{Tool, with_execute}
use yellowbullv.Context.{convert}
use yellowbullv.Llm.{Role, LlmMessage, plain}
use yellowbullv.Llm.Anthropic.{Turn, plain_text, format_messages}
use yellowbullv.Llm.Anthropic.Messages.{Script-format_messages}
use yellowbullv.Llm.OpenAi.{CallDelta, Chunk, no_choice, choice, accumulate}
use yellowbullv.Llm.OpenAi.Stream.{arguments_at, has_index, accumulate_lem}
use yellowbullv.Dict.{Dict}
use yellowbullv.Llm.Factory.{Provider}
use yellowbullv.Agent.Transcript.{answer}

abbrev loads : String → Option Json
loads s = some (obj end)

abbrev no_zero : String → Bool
no_zero s = false

abbrev line : MessageRole → String → Message
line role text = record {
  id = text;
  role = role;
  content = some text;
  tool_calls = none;
  tool_call_id = none;
  created_at = 0;
}

-- A tool's message after the user's text cannot be sent.
abbrev misplaced : List LlmMessage
misplaced = plain Role.user (some "hi") ∷ plain Role.tool (some "ok") ∷ []

Script-format_messages_example :
    is_some (
      format_messages loads no_zero
        (convert (line MessageRole.user "hi" ∷ line MessageRole.assistant "ok" ∷ []))
        (some "p")
        [])
    ≡ true
Script-format_messages_example =
    Script-format_messages loads no_zero (some "p") (line MessageRole.user "hi")
      (line MessageRole.assistant "ok" ∷ []) refl
      (answer (line MessageRole.assistant "ok") refl refl)

abbrev sent : List Turn
sent = record { from_user = true; content = plain_text "hi" } ∷ []

abbrev summary : Option String
summary = some "summary"

abbrev echo : Tool
echo = record {
  info = record {
    name = "echo";
    description = "";
    parameters = record { properties = []; required = []; whole = obj end };
  };
  max_retries = 0;
  takes_context = false;
  timeout = none;
  kind = with_execute;
  shown = "echo";
}

-- Two calls whose pieces arrive by turns.
abbrev piece : ℕ → Option String → Option String → String → CallDelta
piece i id name text = record { index = i; id = id; name = name; arguments = some text }

abbrev first : List CallDelta
first = piece 0 (some "c1") (some "echo") "{" ∷ piece 1 (some "c2") (some "rm") "[" ∷ []

abbrev second : List CallDelta
second = piece 0 none none "}" ∷ piece 1 none none "]" ∷ []

abbrev stream : List Chunk
stream = choice (some "a") first ∷ no_choice ∷ choice none second ∷ []

accumulate_lem_example :
    (arguments_at 1 (accumulate (first ++ second) []) ≡ "[]")
    × (has_index 1 (accumulate (first ++ second) []) ≡ true)
accumulate_lem_example = accumulate_lem 1 (first ++ second)

-- Created with the defaults; an extra setting is refused.
-- Clients that refuse nothing.
abbrev client : Provider → Dict Json → Option String
client p kwargs = none
