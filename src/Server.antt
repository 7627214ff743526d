-- ===== src/Server.antt =====
-- api/server.py: the endpoints that `create_app` defines, over the agent's `chat` and its sessions in
-- memory. `_agent`, which is set before any endpoint is called, is taken as set, but for the branches
-- that ask for it, which take `ready`. Times are written by `show_time`.
pub mod Socket
pub mod Stream
pub mod Sessions
mod Tests
use yellowbullv.Shared.{
  ℕ, String, Option, none, some, or_empty, Bool, true, false, not, ◌&&◌, List, [], ◌∷◌, map, length,
  if◌then◌else◌, is_empty, str_eq,
}
use yellowbullv.Shared.Json.{Json}
use yellowbullv.Dict.{Dict}
use yellowbullv.Session.{MessageRole, system, user, assistant, tool, Message, Session}
use yellowbullv.Sessions.Memory.{memory}
use yellowbullv.Sessions.{get, delete_session}
use yellowbullv.Agent.{
  Services, AgentConfig, ChatRequest, ChatResponse, Answer, answered, failed, chat,
}

-- What a call of an endpoint ends in: a body, an `HTTPException`, or another exception.
pub data Reply (A : Type 0) : Type 0 where
  body : A → Reply A
  http_exception : (status : ℕ) → (detail : String) → Reply A
  crashed : String → Reply A

pub record SessionInfo : Type 0 where
  pub session_id : String
  pub user_id : String
  pub message_count : ℕ
  pub created_at : String
  pub updated_at : String

-- `ChatResponse(…, tool_results=[], …)`
unfoldable pub chat_body : Answer → Reply ChatResponse
chat_body (answered r) = body (record r { tool_results = [] })
chat_body (failed e) = crashed e

-- `POST /api/chat`
unfoldable pub chat_endpoint :
    (sv : Services)
    → AgentConfig
    → ChatRequest
    → Dict Session
    → sv.World
    → Reply ChatResponse × Dict Session × sv.World
unfolding chat_body
chat_endpoint sv cfg req store w =
    let (answer, store', w') = chat sv cfg req store w in (chat_body answer, store', w')

-- `DELETE /api/sessions/{session_id}`, which answers with no body.
unfoldable pub delete_endpoint : Bool → String → Dict Session → Reply (Unit {0}) × Dict Session
delete_endpoint false id store = (http_exception 404 "Session not found", store)
delete_endpoint true id store =
    let (found, store') = delete_session memory id store in
    (if found then body tt else http_exception 404 "Session not found", store')

-- `m.role.value`
abbrev pub role_value : MessageRole → String
role_value system = "system"
role_value user = "user"
role_value assistant = "assistant"
role_value tool = "tool"

pub record HistoryEntry : Type 0 where
  pub role : String
  pub content : Option String
  pub created_at : String

pub record History : Type 0 where
  pub session_id : String
  pub messages : List HistoryEntry

module _ (show_time : ℕ → String) where
  unfoldable pub entry_of : Message → HistoryEntry
  entry_of m = record {
    role = role_value m.role;
    content = m.content;
    created_at = show_time m.created_at;
  }

  -- `GET /api/sessions/{session_id}/history`
  unfoldable pub history_endpoint : Bool → String → Dict Session → Reply History
  unfolding entry_of
  history_endpoint false id store = http_exception 500 "Agent not initialized"
  history_endpoint true id store = elim (get memory id store) [
    | none ↦ http_exception 404 "Session not found"
    | some s ↦ body (record { session_id = s.session_id; messages = map entry_of s.messages })
  ]

  unfoldable pub info_of : Session → SessionInfo
  info_of s = record {
    session_id = s.session_id;
    user_id = s.user_id;
    message_count = length s.messages;
    created_at = show_time s.created_at;
    updated_at = show_time s.updated_at;
  }

  -- The loop over `_sessions.items()`, which leaves out the sessions of other users.
  unfoldable pub infos : String → Dict Session → List SessionInfo
  unfolding info_of
  infos user_id [] = []
  infos user_id ((sid, s) ∷ store) =
      let rest = infos user_id store in
      if not (is_empty user_id) && not (str_eq s.user_id user_id) then rest else info_of s ∷ rest

  -- `GET /api/sessions`
  unfoldable pub list_endpoint : Bool → Option String → Dict Session → Reply (List SessionInfo)
  unfolding infos
  list_endpoint false user_id store = http_exception 500 "Agent not initialized"
  list_endpoint true user_id store = body (infos (or_empty user_id) store)

pub record Health : Type 0 where
  pub status : String
  pub version : String
  pub llm_provider : String
  pub sessions_active : ℕ

-- `GET /api/health`; `version` is `settings.app.version`, where the settings have it.
unfoldable pub health : Bool → Option String → String → Dict Session → Health
health ready version active store = record {
  status = "ok";
  version = elim version [ none ↦ "0.1.0" | some v ↦ v ];
  llm_provider = active;
  sessions_active = if ready then length store else 0;
}
