-- ===== src/Server/Socket.antt =====
-- `/ws/chat`: the loop over the messages of one connection.
pub mod Continuity
use yellowbullv.Shared.{
  ℕ, String, Option, none, some, or_empty, str_or, Bool, true, false, not, ◌&&◌, List, [], ◌∷◌,
  ◌++◌, if◌then◌else◌, is_empty, is_nonempty,
}
use yellowbullv.Shared.Json.{Json}
use yellowbullv.Dict.{Dict}
use yellowbullv.Session.{Session}
use yellowbullv.Agent.{
  Services, AgentConfig, ChatRequest, ChatResponse, Answer, answered, failed, chat,
}

-- What `receive_json` ends in, `message` and `user_id` being the entries of the object; and, while it
-- waits, what other connections and requests make of the sessions, which all of them share.
pub data Incoming : Type 0 where
  elsewhere : (Dict Session → Dict Session) → Incoming
  received : (message user_id : Option String) → Incoming
  disconnected : Incoming
  invalid : String → Incoming

-- What `send_json` sends.
pub data Frame : Type 0 where
  error_frame : String → Frame
  content_frame : (content session_id : String) → Frame
  results_frame : List Json → Frame
  done_frame : Frame

-- Where the loop stands: it waits for a message; it is left as the client is gone; or an exception
-- leaves it.
pub data Status : Type 0 where
  waiting closed : Status
  crashed : String → Status

-- The variables `session_id` and `user_id`, and, as the connection finds them, the sessions and the world
-- of the agent.
pub record Connection (World : Type 0) : Type 0 where
  pub session_id : Option String
  pub user_id : String
  pub store : Dict Session
  pub world : World

-- `if not user_id and data.get("user_id"): user_id = …`
abbrev pub known_user : String → Option String → String
known_user user given =
    if is_empty user && not (is_empty (or_empty given)) then or_empty given else user

-- The frames of an answer.
unfoldable pub frames_of : ChatResponse → List Frame
frames_of r =
    content_frame r.content r.session_id
      ∷ (if is_nonempty r.tool_results then results_frame r.tool_results ∷ [] else [])
    ++ done_frame ∷ []

module _ (sv : Services) (cfg : AgentConfig) where
  open sv use {World}

  -- What follows the call of `chat`.
  unfoldable pub after_chat :
      String
      → Answer
      → Dict Session
      → World
      → Connection World
      → List Frame × Status × Connection World
  unfolding frames_of
  after_chat user (answered r) store w c = (
    frames_of r,
    waiting,
    record { session_id = some r.session_id; user_id = user; store = store; world = w },
  )
  after_chat user (failed e) store w c =
      ([], crashed e, record c { user_id = user; store = store; world = w })

  abbrev pub request_of : Option String → String → Option String → ChatRequest
  request_of session user message = record {
    session_id = session;
    user_id = str_or user "ws";
    message = or_empty message;
  }

  -- One round of the loop.
  unfoldable pub ws_step :
      Bool → Incoming → Connection World → List Frame × Status × Connection World
  unfolding after_chat
  ws_step ready (elsewhere change) c = ([], waiting, record c { store = change c.store })
  ws_step ready disconnected c = ([], closed, c)
  ws_step ready (invalid e) c = ([], crashed e, c)
  ws_step false (received message given) c = (
    error_frame "Agent not initialized" ∷ [],
    waiting,
    record c { user_id = known_user c.user_id given },
  )
  ws_step true (received message given) c =
      let user = known_user c.user_id given in
      let (answer, store, w) = chat sv cfg (request_of c.session_id user message) c.store c.world in
      after_chat user answer store w c

  -- The loop on what the client and the others do, in its order, until it is left.
  unfoldable pub ws_run :
      Bool → List Incoming → Connection World → List Frame × Status × Connection World
  unfolding ws_step
  ws_run ready [] c = ([], waiting, c)
  ws_run ready (i ∷ is) c =
      let (frames, status, c1) = ws_step ready i c in
      let (more, end, c2) = ws_run ready is c1 in
      elim status [
        | waiting ↦ (frames ++ more, end, c2)
        | closed ↦ (frames, closed, c1)
        | crashed e ↦ (frames, crashed e, c1)
      ]

  -- `session_id = None` and `user_id = ""`
  abbrev pub connected : Dict Session → World → Connection World
  connected store w = record { session_id = none; user_id = ""; store = store; world = w }
