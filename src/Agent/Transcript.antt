-- ===== src/Agent/Transcript.antt =====
-- What `chat` writes into a session: the protocol between the assistant's messages, their tool calls
-- and the tool messages that answer them.
use yellowbullv.Shared.{
  ℕ, suc, ◌≡◌, refl, sym, ap, ◌∙◌, String, Option, none, some, Bool, true, false, arith, List, [],
  ◌∷◌, ◌++◌, append_assoc, append-nil, is_nonempty, get_elem?,
}
use yellowbullv.Session.{MessageRole, assistant, tool, Message, ToolCall, Session, add_message}
use yellowbullv.Llm.{LlmResponse}
use yellowbullv.Executor.{ExecutionResult}
use yellowbullv.Executor.Batch.{Batch, completed, aborted}
use yellowbullv.Agent.{
  Services, AgentConfig, Answer, answered, failed, Reply, replied, llm_error, tool_content,
  bump_depth, say, add_results, build_tool_requests, rounds,
}

-- Tool messages that answer the calls one to one and in order: each carries its call's id and the
-- content of the result at its index, from `idx` on.
abbrev pub Replies : ℕ → List ExecutionResult → List ToolCall → List Message → Type 0
Replies idx results [] [] = Unit
Replies idx results [] (m ∷ ms) = ⊥
Replies idx results (c ∷ cs) [] = ⊥
Replies idx results (c ∷ cs) (m ∷ ms) =
    (m.role ≡ tool)
    × (m.tool_call_id ≡ some c.id)
    × (m.content ≡ some (tool_content (get_elem? results idx)))
    × Replies (suc idx) results cs ms

-- What follows the user's message, by the number of tool rounds, and whether an answer was given.
pub data Script : Bool → ℕ → List Message → Type 0 where
  -- the answer: an assistant message without calls
  answer : (m : Message) → m.role ≡ assistant → m.tool_calls ≡ none → Script true 0 (m ∷ [])
  -- the model failed: nothing more
  no_reply : Script false 0 []
  -- the batch failed: calls that no tool message answers
  no_results :
      (m : Message) (cs : List ToolCall)
      → m.role ≡ assistant
      → m.tool_calls ≡ some cs
      → Script false 0 (m ∷ [])
  -- an assistant message with calls, and the tool messages that answer all of them
  round :
      {done : Bool} {n : ℕ} (m : Message) (cs : List ToolCall) (results : List ExecutionResult)
      (ms rest : List Message)
      → m.role ≡ assistant
      → m.tool_calls ≡ some cs
      → is_nonempty cs ≡ true
      → Replies 0 results cs ms
      → Script done n rest
      → Script done (suc n) (m ∷ (ms ++ rest))

abbrev pub is_answered : Answer → Bool
is_answered (answered r) = true
is_answered (failed e) = false

module _ (sv : Services) (cfg : AgentConfig) where
  open sv use {World}

  -- One message more, with the given parts.
  pub record Said (role : MessageRole) (content : Option String) (calls : Option (List ToolCall))
      (id : Option String) (s s' : Session) : Type 0 where
    pub m : Message
    pub role_same : m.role ≡ role
    pub content_same : m.content ≡ content
    pub calls_same : m.tool_calls ≡ calls
    pub id_same : m.tool_call_id ≡ id
    pub appended : s'.messages ≡ s.messages ++ m ∷ []

  pub say_lem :
      (role : MessageRole) (content : Option String) (calls : Option (List ToolCall))
      (id : Option String) (s : Session) (w : World)
      → Said role content calls id s (say sv cfg role content calls id s w).0
  unfolding say add_message
  say_lem role content calls id s w = record {
    m = _;
    role_same = refl;
    content_same = refl;
    calls_same = refl;
    id_same = refl;
    appended = refl;
  }

  pub add_results_lem :
      (idx : ℕ) (cs : List ToolCall) (results : List ExecutionResult) (s : Session) (w : World)
      → (ms : List Message) × ((add_results sv cfg idx cs results s w).0.messages
          ≡ s.messages ++ ms)
        × Replies idx results cs ms
  unfolding add_results
  add_results_lem idx [] results s w = ([], sym (append-nil s.messages), tt)
  add_results_lem idx (c ∷ cs) results s w =
      let said = say_lem tool (some (tool_content (get_elem? results idx))) none (some c.id) s w in
      let step =
        say sv cfg tool (some (tool_content (get_elem? results idx))) none (some c.id) s w in
      let (ms, e, r) = add_results_lem (suc idx) cs results step.0 step.1 in
      (
        said.m ∷ ms,
        e ∙ ap (λ x. x ++ ms) said.appended ∙ append_assoc s.messages (said.m ∷ []) ms,
        (said.role_same, said.id_same, said.content_same, r),
      )

  -- The loop at one reply of the model, and at one outcome of its batch.
  module _ (left : ℕ) (log : List ExecutionResult) (s : Session) (w : World) where
    abbrev pub asked : Reply × World
    asked = sv.llm (sv.build (bump_depth s)) sv.definitions w

    abbrev pub said_final : LlmResponse → Session × World
    said_final r = say sv cfg assistant r.content none none (bump_depth s) asked.1

    abbrev pub said_calls : LlmResponse → Session × World
    said_calls r = say sv cfg assistant r.content (some r.tool_calls) none (bump_depth s) asked.1

    abbrev pub ran : LlmResponse → Batch × World
    ran r = sv.batch (build_tool_requests sv cfg r.tool_calls) (said_calls r).1

    pub rounds-error :
        (e : String)
        → asked.0 ≡ llm_error e
        → ((rounds sv cfg (suc left) log s w).1 ≡ bump_depth s)
          × (is_answered (rounds sv cfg (suc left) log s w).0 ≡ false)
    unfolding rounds
    rounds-error e h = ground arith

    pub rounds-final :
        (r : LlmResponse)
        → asked.0 ≡ replied r
        → is_nonempty r.tool_calls ≡ false
        → ((rounds sv cfg (suc left) log s w).1 ≡ (said_final r).0)
          × (is_answered (rounds sv cfg (suc left) log s w).0 ≡ true)
    unfolding rounds
    rounds-final r h e = ground arith

    pub rounds-aborted :
        (r : LlmResponse) (x : String)
        → asked.0 ≡ replied r
        → is_nonempty r.tool_calls ≡ true
        → (ran r).0 ≡ aborted x
        → ((rounds sv cfg (suc left) log s w).1 ≡ (said_calls r).0)
          × (is_answered (rounds sv cfg (suc left) log s w).0 ≡ false)
    unfolding rounds
    rounds-aborted r x h e f = ground arith

    abbrev pub replied_to : LlmResponse → List ExecutionResult → Session × World
    replied_to r results = add_results sv cfg 0 r.tool_calls results (said_calls r).0 (ran r).1

    pub rounds-round :
        (r : LlmResponse) (results : List ExecutionResult)
        → asked.0 ≡ replied r
        → is_nonempty r.tool_calls ≡ true
        → (ran r).0 ≡ completed results
        → rounds sv cfg (suc left) log s w
          ≡ rounds sv cfg left (log ++ results) (replied_to r results).0 (replied_to r results).1
    unfolding rounds
    rounds-round r results h e f = ground arith
