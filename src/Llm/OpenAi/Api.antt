-- ===== src/Llm/OpenAi/Api.antt =====
-- llm/openai_provider.py: the constructor, and `chat` over the client of the API, which is an
-- argument.
use yellowbullv.Shared.{ℕ, String, Option, Bool, true, false, List, str_or}
use yellowbullv.Shared.Json.{Json}
use yellowbullv.Llm.{
  LlmMessage, Reply, replied, llm_error, Provider, ClientKwargs, some_url, some_tools,
}
use yellowbullv.Llm.OpenAi.{Entry, format_messages, CallAnswer, Usage, parse_response}

unfoldable pub init :
    (api_key : String) (base_url : Option String) (model temperature : String) (max_tokens : ℕ)
    (timeout : String)
    → Provider × ClientKwargs
init api_key base_url model temperature max_tokens timeout = (
  record { model_name = model; temperature = temperature; max_tokens = max_tokens },
  record { api_key = str_or api_key "dummy-key"; timeout = timeout; base_url = some_url base_url },
)

-- The keywords of `client.chat.completions.create`.
pub record Request : Type 0 where
  pub model : String
  pub messages : List Entry
  pub temperature : String
  pub max_tokens : ℕ
  pub tools : Option (List Json)
  pub stream : Bool

unfoldable pub request : Provider → List Entry → Option (List Json) → Request
request p formatted tools = record {
  model = p.model_name;
  messages = formatted;
  temperature = p.temperature;
  max_tokens = p.max_tokens;
  tools = some_tools tools;
  stream = false;
}

unfoldable pub stream_request : Provider → List Entry → Option (List Json) → Request
stream_request p messages tools = record {
  model = p.model_name;
  messages = messages;
  temperature = p.temperature;
  max_tokens = p.max_tokens;
  tools = some_tools tools;
  stream = true;
}

-- What the client answers: the first choice and the usage, or an exception.
pub data Completion : Type 0 where
  completion : Option (Option String × List CallAnswer) → Option Usage → Completion
  api_error : String → Completion

abbrev reply_of : Completion → Reply
reply_of (completion choice usage) = replied (parse_response choice usage)
reply_of (api_error e) = llm_error e

-- `chat` without `stream`.
unfoldable pub chat :
    {W : Type 0}
    → (Request → W → Completion × W)
    → Provider
    → List LlmMessage
    → Option (List Json)
    → W
    → Reply × W
chat create p messages tools w =
    let (c, w') = create (request p (format_messages messages) tools) w in (reply_of c, w')
