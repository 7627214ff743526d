-- ===== src/Agent.antt =====
-- core/agent.py: the tool-calling loop of `chat`. The model, the executor's batches, the context
-- builder, the clock, `uuid.uuid4()` and `json.loads` are the argument `Services`; a session is the
-- object in the store, so the loop hands its new value on and `chat` puts it back under its id.
pub mod Transcript
pub mod Rounds
pub mod Chat
pub mod Requests
pub mod Answers
pub mod Keeps
pub mod World
mod Tests
use yellowbullv.Shared.{
  ℕ, zero, suc, ◌+◌, String, Option, none, some, Bool, true, false, List, [], ◌∷◌, ◌++◌, not, ◌&&◌,
  is_empty, or_empty, str_or, concat, join, map, filter, take, take_text, get_elem?, is_nonempty,
  if◌then◌else◌,
}
use yellowbullv.Shared.Json.{Json, obj, end}
use yellowbullv.Dict.{Dict, lookup, insert}
use yellowbullv.Session.{
  MessageRole, user, assistant, tool, Message, ToolCall, Session, add_message, fresh_session,
}
use yellowbullv.Llm.{LlmMessage, LlmResponse}
pub use yellowbullv.Llm.{Reply, replied, llm_error}
use yellowbullv.Executor.{ToolCallRequest, ExecutionResult, succeeded}
use yellowbullv.Executor.Batch.{Batch, completed, aborted}

pub record ChatRequest : Type 0 where
  pub session_id : Option String
  pub user_id : String
  pub message : String

pub record ChatResponse : Type 0 where
  pub content : String
  pub session_id : String
  pub tool_results : List Json
  pub needs_clarification : Bool
  pub usage : Option Json

-- `ChatResponse(content=…, session_id=…, usage=…)`
abbrev pub response : String → String → Option Json → ChatResponse
response content session_id usage = record {
  content = content;
  session_id = session_id;
  tool_results = [];
  needs_clarification = false;
  usage = usage;
}

-- What `chat` does: it answers, or an exception of the model or of a batch leaves it.
pub data Answer : Type 0 where
  answered : ChatResponse → Answer
  failed : String → Answer

pub record Services : Type 1 where
  pub World : Type 0
  pub uuid : World → String × World
  pub tick : World → ℕ × World
  pub llm : List LlmMessage → List Json → World → Reply × World
  pub batch : List ToolCallRequest → World → Batch × World
  pub loads : String → Option Json
  pub build : Session → List LlmMessage
  pub definitions : List Json

pub record AgentConfig : Type 0 where
  pub max_chain_depth : ℕ
  pub max_tool_calls_per_turn : ℕ

-- The content of the tool message at an index.
unfoldable pub tool_content : Option ExecutionResult → String
tool_content none = "工具执行结果不可用"
tool_content (some r) = r.content

abbrev pub bump_depth : Session → Session
bump_depth s = record s { state = record s.state { chain_depth = s.state.chain_depth + 1 } }

-- A line of the closing summary, for a success and for a failure.
done_line : ExecutionResult → String
done_line r = concat ("- " ∷ r.tool_name ∷ ": " ∷ take_text 100 r.content ∷ [])

error_line : ExecutionResult → String
error_line r = concat ("- " ∷ r.tool_name ∷ ": " ∷ str_or r.error "unknown" ∷ [])

abbrev section : String → List String → List String → List String
section title [] rest = rest
section title (l ∷ ls) rest = concat (title ∷ join "\n" (l ∷ ls) ∷ []) ∷ rest

-- The answer when the depth is used up, from the results of all the rounds.
unfoldable pub fallback : List ExecutionResult → String
unfolding done_line error_line
fallback log =
    let parts =
      section "已完成的操作：\n" (map done_line (filter (λ r. succeeded r.status) log))
        (section "失败的操作：\n" (map error_line (filter (λ r. not (succeeded r.status)) log)) []) in
    concat (
      "任务处理已达到最大步骤限制。"
      ∷ (if is_nonempty parts then concat ("\n\n" ∷ join "\n\n" parts ∷ []) else "")
      ∷ "\n\n请继续对话让我完成剩余部分，或分步提交子任务。"
      ∷ [])

module _ (sv : Services) (cfg : AgentConfig) where
  open sv use {World, uuid, tick, llm, batch, loads, build, definitions}

  -- A new message at the end of the session: its id is drawn, and the clock is read for the message
  -- and for the session.
  unfoldable pub say :
      MessageRole
      → Option String
      → Option (List ToolCall)
      → Option String
      → Session
      → World
      → Session × World
  say role content tool_calls tool_call_id s w =
      let (id, w1) = uuid w in
      let (created, w2) = tick w1 in
      let (updated, w3) = tick w2 in
      let m : Message = record {
        id = id;
        role = role;
        content = content;
        tool_calls = tool_calls;
        tool_call_id = tool_call_id;
        created_at = created;
      } in
      (add_message m updated s, w3)

  -- `_build_tool_requests`
  unfoldable pub tool_request : ToolCall → ToolCallRequest
  tool_request c = record {
    tool_name = c.name;
    arguments = elim (loads c.arguments) [ none ↦ obj end | some v ↦ v ];
  }

  unfoldable pub build_tool_requests : List ToolCall → List ToolCallRequest
  unfolding tool_request
  build_tool_requests calls = map tool_request (take cfg.max_tool_calls_per_turn calls)

  -- The loop that adds a tool message for each call, from index `idx` on.
  unfoldable pub add_results :
      ℕ → List ToolCall → List ExecutionResult → Session → World → Session × World
  add_results idx [] results s w = (s, w)
  add_results idx (c ∷ cs) results s w =
      let (s', w') = say tool (some (tool_content (get_elem? results idx))) none (some c.id) s w in
      add_results (suc idx) cs results s' w'

  -- The main loop, with `left` rounds to go.
  unfoldable pub rounds : ℕ → List ExecutionResult → Session → World → Answer × Session × World
  rounds zero log s w =
      let (s', w') = say assistant (some (fallback log)) none none s w in
      (answered (response (fallback log) s.session_id none), s', w')
  rounds (suc left) log s w =
      let s1 = bump_depth s in
      let (reply, w1) = llm (build s1) definitions w in
      elim reply [
        | llm_error e ↦ (failed e, s1, w1)
        | replied r ↦ elim (is_nonempty r.tool_calls) [
          | false ↦
              let (s2, w2) = say assistant r.content none none s1 w1 in
              (answered (response (or_empty r.content) s.session_id r.usage), s2, w2)
          | true ↦
              let (s2, w2) = say assistant r.content (some r.tool_calls) none s1 w1 in
              let (outcome, w3) = batch (build_tool_requests r.tool_calls) w2 in
              elim outcome [
                | aborted e ↦ (failed e, s2, w3)
                | completed results ↦
                    let (s3, w4) = add_results 0 r.tool_calls results s2 w3 in
                    rounds left (log ++ results) s3 w4
              ]
        ]
      ]

  -- `_get_or_create_session`: `if request.session_id:` takes an empty id for none.
  new_session : ChatRequest → Dict Session → World → Session × Dict Session × World
  new_session req store w =
      let (id, w1) = uuid w in
      let (created, w2) = tick w1 in
      let (updated, w3) = tick w2 in
      let s = fresh_session id req.user_id created updated in (s, insert id s store, w3)

  unfoldable pub get_or_create : ChatRequest → Dict Session → World → Session × Dict Session × World
  unfolding new_session
  get_or_create req store w =
      let known : Option Session =
        if is_empty (or_empty req.session_id)
        then none
        else lookup (or_empty req.session_id) store in
      elim known [ some s ↦ (s, store, w) | none ↦ new_session req store w ]

  unfoldable pub chat : ChatRequest → Dict Session → World → Answer × Dict Session × World
  chat req store w =
      let (s, store1, w1) = get_or_create req store w in
      let (s1, w2) = say user (some req.message) none none s w1 in
      let (answer, s2, w3) = rounds cfg.max_chain_depth [] s1 w2 in
      (answer, insert s2.session_id s2 store1, w3)
