-- ===== src/Server/Stream.antt =====
-- The streaming endpoint: `sse_stream`, and what `stream_chat_response` generates.
pub mod Replies
use yellowbullv.Shared.{
  ℕ, String, Option, none, some, or_empty, str_or, Bool, true, false, not, ◌&&◌, List, [], ◌∷◌,
  ◌++◌, map, if◌then◌else◌, is_empty, cat, concat,
}
use yellowbullv.Shared.Json.{Json}
use yellowbullv.Dict.{Dict}
use yellowbullv.Session.{user, assistant, Session}
use yellowbullv.Llm.{LlmMessage, StreamChunk}
use yellowbullv.Agent.{Services, AgentConfig, ChatRequest, say, get_or_create}

-- What a generator yields, and the exception that ends it, if one does.
pub record Generated : Type 0 where
  pub yields : List String
  pub raised : Option String

-- `f"data: {text}\n\n"`
abbrev pub event : String → String
event text = concat ("data: " ∷ text ∷ "\n\n" ∷ [])

abbrev pub closing : Option String → List String
closing none = event "[DONE]" ∷ []
closing (some e) = []

unfoldable pub sse_stream : Generated → Generated
sse_stream g = record { yields = map event g.yields ++ closing g.raised; raised = g.raised }

-- `f'data: {{"session_id": "{…}"}}\n\n'`
abbrev pub session_event : Session → String
session_event s = event (concat ("{\"session_id\": \"" ∷ s.session_id ∷ "\"}" ∷ []))

-- What `llm.chat(…, stream=True)` ends in: an exception, an iterator with its chunks and the exception
-- that may end it, or a whole response.
pub data Streamed : Type 0 where
  stream_error : String → Streamed
  streaming : List StreamChunk → Option String → Streamed
  whole : (content : Option String) → Streamed

module _ (sv : Services) (cfg : AgentConfig) where
  open sv use {World, build, definitions}

  -- The loop over the chunks, `full` being the text so far.
  unfoldable pub stream_loop :
      String → List StreamChunk → Session → World → List String × Session × World
  stream_loop full [] s w = ([], s, w)
  stream_loop full (c ∷ cs) s w =
      let (s1, w1) = say sv cfg assistant (some (str_or full "(empty response)")) none none s w in
      let after_done = stream_loop full cs s1 w1 in
      let after_text = stream_loop (cat full c.delta) cs s w in
      let skipped = stream_loop full cs s w in
      if c.done
      then (session_event s1 ∷ after_done.0, after_done.1, after_done.2)
      else if not (is_empty c.delta)
      then (event c.delta ∷ after_text.0, after_text.1, after_text.2)
      else skipped

  -- What follows the call of the model.
  unfoldable pub stream_reply : Streamed → Session → World → Generated × Session × World
  unfolding stream_loop
  stream_reply (stream_error e) s w =
      (record { yields = event (cat "[ERROR] " e) ∷ []; raised = none }, s, w)
  stream_reply (streaming chunks end) s w =
      let (yields, s1, w1) = stream_loop "" chunks s w in
      (record { yields = yields; raised = end }, s1, w1)
  stream_reply (whole content) s w =
      let (s1, w1) = say sv cfg assistant (some (or_empty content)) none none s w in
      (record { yields = event (or_empty content) ∷ session_event s1 ∷ []; raised = none }, s1, w1)

-- `stream_chat_response`: without an agent it says so; with one it looks `ChatRequest` up in the class
-- `Agent`, which has no such attribute, and goes no further.
unfoldable pub stream_chat_response : Bool → Generated
stream_chat_response false = record {
  yields = event "[ERROR] Agent not initialized" ∷ [];
  raised = none;
}
stream_chat_response true = record {
  yields = [];
  raised = some "type object 'Agent' has no attribute 'ChatRequest'";
}

-- `POST /api/chat/stream`
unfoldable pub stream_endpoint : Bool → Generated
unfolding sse_stream stream_chat_response
stream_endpoint ready = sse_stream (stream_chat_response ready)
