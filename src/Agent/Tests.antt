-- ===== src/Agent/Tests.antt =====
-- The loop of `chat` against a model that asks for one tool call and then answers.
use yellowbullv.Shared.{
  ℕ, suc, ◌+◌, none, some, false, [], ◌∷◌, arith, show_nat, ltb, if◌then◌else◌,
}
use yellowbullv.Shared.Json.{obj, end}
use yellowbullv.Dict.{lookup}
use yellowbullv.Session.{ToolCall, Session, fresh_session}
use yellowbullv.Llm.{LlmResponse}
use yellowbullv.Tools.{find_tool}
use yellowbullv.Executor.{
  Runtime, Executor, timed_out, ExecutionResult, ExecutionStatus, unknown_tool, execute_single,
}
use yellowbullv.Executor.Caching.{IsGood}
use yellowbullv.Executor.Batch.{serial, AnswerAll, serial-Completes}
use yellowbullv.Agent.{Services, AgentConfig, ChatRequest, replied, chat, build_tool_requests}
use yellowbullv.Agent.Transcript.{is_answered}
use yellowbullv.Agent.Chat.{Chatted, chat_lem}
use yellowbullv.Agent.Requests.{Recorded, add_results-Recorded}

abbrev call : ToolCall
call = record { id = "c1"; name = "rm"; arguments = "{}" }

abbrev wants : LlmResponse
wants = record { content = none; tool_calls = call ∷ []; usage = none }

abbrev answers : LlmResponse
answers = record { content = some "done"; tool_calls = []; usage = none }

-- No tool is registered.
abbrev rt : Runtime
rt = record {
  World = ℕ;
  clock = λ w. w;
  sleep = λ num den w. w + num;
  execute = λ t a limit w. (timed_out, suc w);
  call = λ t a limit w. (timed_out, suc w);
  mapping_error = λ t a. "not a mapping";
  show_seconds = show_nat;
  dumps = λ v. "{}";
  sha256 = λ s. s;
}

abbrev ex : Executor
ex = record {
  registry = [];
  default_timeout = 30;
  max_retries = 2;
  backoff_num = 3;
  backoff_den = 2;
  parallel = false;
  enable_cache = false;
}

abbrev sv : Services
sv = record {
  World = ℕ;
  uuid = λ w. (show_nat w, suc w);
  tick = λ w. (w, suc w);
  llm = λ ms ds w. (replied (if ltb w 7 then wants else answers), suc w);
  batch = λ qs w. ((serial rt ex qs [] w).0, suc w);
  loads = λ s. some (obj end);
  build = λ s. [];
  definitions = [];
}

abbrev cfg : AgentConfig
cfg = record { max_chain_depth = 3; max_tool_calls_per_turn = 2 }

abbrev hello : ChatRequest
hello = record { session_id = none; user_id = "me"; message = "hi" }

abbrev again : ChatRequest
again = record { session_id = some "s"; user_id = "me"; message = "hi" }

abbrev kept : Session
kept = fresh_session "s" "me" 1 1

chat_lem_example :
    Chatted sv cfg hello [] 0 (is_answered (chat sv cfg hello [] 0).0) (chat sv cfg hello [] 0).1
chat_lem_example = chat_lem sv cfg hello [] 0

-- One result for one call.
abbrev refused : ExecutionResult
refused = record {
  tool_name = "rm";
  status = ExecutionStatus.failed;
  content = "";
  error = "Unknown tool: rm";
  duration_ms = 0;
  retry_count = 0;
}

empty_cache : IsGood []
unfolding lookup
empty_cache = record {
  holds = λ k r h. absurd (ground arith);
  sound = λ k r h. absurd (ground arith);
}

refused_answers : AnswerAll rt ex (build_tool_requests sv cfg (call ∷ [])) (refused ∷ [])
unfolding build_tool_requests serial execute_single unknown_tool lookup find_tool
refused_answers =
    (serial-Completes rt ex (build_tool_requests sv cfg (call ∷ [])) [] 0 empty_cache).0

add_results-Recorded_example : Recorded rt ex sv cfg (call ∷ []) (refused ∷ []) kept 0
add_results-Recorded_example =
    add_results-Recorded rt ex sv cfg (call ∷ []) (refused ∷ []) kept 0 refused_answers
