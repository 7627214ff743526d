-- ===== src/Llm/Anthropic/Api.antt =====
-- llm/anthropic_provider.py: the constructor, and `chat` over the client of the API, which is an
-- argument.
use yellowbullv.Shared.{
  ℕ, ◌/◌, max, String, Option, none, some, Bool, List, [], is_empty, str_or, if◌then◌else◌,
}
use yellowbullv.Shared.Json.{Json}
use yellowbullv.Llm.{
  LlmMessage, Reply, replied, llm_error, Provider, ClientKwargs, some_url, some_tools,
}
use yellowbullv.Llm.Anthropic.{Turn, format_messages, format_tools, Answered, parse_response}

unfoldable pub init :
    (api_key : String) (base_url : Option String) (model temperature : String) (max_tokens : ℕ)
    (timeout : String)
    → Provider × ClientKwargs
init api_key base_url model temperature max_tokens timeout = (
  record { model_name = model; temperature = temperature; max_tokens = max_tokens },
  record { api_key = str_or api_key "dummy-key"; timeout = timeout; base_url = some_url base_url },
)

-- The keywords of `client.messages.create`, which are those of `client.messages.stream` too.
pub record Request : Type 0 where
  pub model : String
  pub messages : List Turn
  pub max_tokens : ℕ
  pub temperature : String
  pub system : Option String
  pub tools : Option (List Json)

-- `if system_prompt:`
abbrev some_prompt : Option String → Option String
some_prompt none = none
some_prompt (some s) = if is_empty s then none else some s

-- `none` is the `KeyError` of `_format_tools`.
abbrev formatted : Option (List Json) → Option (Option (List Json))
formatted none = some none
formatted (some ts) = elim (format_tools ts) [ none ↦ none | some us ↦ some (some us) ]

unfoldable pub request : Provider → Option String → List Turn → Option (List Json) → Option Request
request p system_prompt messages tools = elim (formatted (some_tools tools)) [
  | none ↦ none
  | some formatted_tools ↦ some (record {
    model = p.model_name;
    messages = messages;
    max_tokens = p.max_tokens;
    temperature = p.temperature;
    system = some_prompt system_prompt;
    tools = formatted_tools;
  })
]

-- What the client answers: the blocks and the usage, or an exception.
pub data Completion : Type 0 where
  completion : List Answered → Option (ℕ × ℕ) → Completion
  api_error : String → Completion

-- `count_tokens`, from the tokens that the tokenizer of the package finds, if there is one, and the
-- number of bytes of the text.
unfoldable pub count_tokens : Option ℕ → ℕ → ℕ
count_tokens none bytes = max 1 (bytes / 4)
count_tokens (some tokens) bytes = tokens

module _ (loads : String → Option Json) (dumps : Json → String) (zero_float : String → Bool)
    {W : Type 0} (create : Request → W → Completion × W) where
  abbrev reply_of : Completion → Reply
  reply_of (completion bs usage) = replied (parse_response dumps zero_float bs usage)
  reply_of (api_error e) = llm_error e

  abbrev pub send : Option Request → W → Reply × W
  send none w = (llm_error "'name'", w)
  send (some r) w = let (c, w') = create r w in (reply_of c, w')

  abbrev pub ask :
      Provider → Option (Option String × List Turn) → Option (List Json) → W → Reply × W
  ask p none tools w = (llm_error "'str' object has no attribute 'append'", w)
  ask p (some (system_prompt, turns)) tools w = send (request p system_prompt turns tools) w

  -- `chat` without `stream`.
  unfoldable pub chat : Provider → List LlmMessage → Option (List Json) → W → Reply × W
  chat p messages tools w = ask p (format_messages loads zero_float messages none []) tools w
