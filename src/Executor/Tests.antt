-- ===== src/Executor/Tests.antt =====
-- The executor on a concrete runtime: the world is a clock, a tool's first run fails, and every
-- later one succeeds.
use yellowbullv.Shared.{
  ℕ, zero, suc, ◌+◌, ◌≡◌, refl, ap, ◌⊎◌, true, false, none, some, List, [], ◌∷◌, arith, show_nat,
}
use yellowbullv.Shared.Json.{obj, end}
use yellowbullv.Dict.{lookup, insert}
use yellowbullv.Tools.{Tool, ToolResult, with_execute, find_tool}
use yellowbullv.Executor.{
  Runtime, Executor, ToolCallRequest, ExecutionResult, ExecutionStatus, Attempt, returned, raised,
  timed_out, done, from_cache, unknown_tool, timeout_error, attempts, execute_single, cache_key,
  invoke_tool, back_off, result_of, remember,
}
use yellowbullv.Executor.Retries.{Stopped, GaveUp, attempts-stops}
use yellowbullv.Executor.Caching.{IsGood, InOrder, execute_single-InOrder}
use yellowbullv.Executor.Hits.{execute_single-again}
use yellowbullv.Executor.Batch.{serial, Completes, AnswerAll, serial-Completes}
use yellowbullv.Executor.Parallel.{
  finished, ready, Event, starts, ends, wakes, run_events, tasks_of, gathered, step_at, step, begin,
  limit, retry, ended,
}
use yellowbullv.Executor.Parallel.Steps.{gathered-run_events}
use yellowbullv.Executor.Parallel.Driven.{parallel}
use yellowbullv.Executor.Parallel.Moves.{turns, moves, moves-execute_single}
use yellowbullv.Executor.Parallel.InTurn.{in_turn, is_completed, parallel-serial}

abbrev fine : ToolResult
fine = record { content = "ok"; success = true; error = "" }

-- The tool fails at time 0.
abbrev flaky : ℕ → Attempt
flaky zero = raised "boom"
flaky (suc n) = returned fine

abbrev rt : Runtime
rt = record {
  World = ℕ;
  clock = λ w. w;
  sleep = λ num den w. w + num;
  execute = λ t a limit w. (flaky w, suc w);
  call = λ t a limit w. (flaky w, suc w);
  mapping_error = λ t a. "not a mapping";
  show_seconds = show_nat;
  dumps = λ v. "{}";
  sha256 = λ s. s;
}

abbrev echo : Tool
echo = record {
  info = record {
    name = "echo";
    description = "";
    parameters = record { properties = []; required = []; whole = obj end };
  };
  max_retries = 0;
  takes_context = false;
  timeout = none;
  kind = with_execute;
  shown = "echo";
}

abbrev ex : Executor
ex = record {
  registry = ("echo", echo) ∷ [];
  default_timeout = 30;
  max_retries = 2;
  backoff_num = 3;
  backoff_den = 2;
  parallel = true;
  enable_cache = true;
}

abbrev uncached : Executor
uncached = record ex { enable_cache = false }

abbrev req : ToolCallRequest
req = record { tool_name = "echo"; arguments = obj end }

abbrev unknown : ToolCallRequest
unknown = record { tool_name = "rm"; arguments = obj end }

-- The second attempt succeeds, at time 4, after a sleep of three ticks.
abbrev echoed : ExecutionResult
echoed = record {
  tool_name = "echo";
  status = ExecutionStatus.success;
  content = "ok";
  error = "";
  duration_ms = 1;
  retry_count = 1;
}

empty-IsGood : IsGood []
unfolding lookup
empty-IsGood = record {
  holds = λ k r h. absurd (ground arith);
  sound = λ k r h. absurd (ground arith);
}

run : execute_single rt ex req [] 0 ≡ (done echoed, (cache_key rt req, echoed) ∷ [], 5)
unfolding execute_single attempts cache_key lookup find_tool invoke_tool back_off result_of remember
    insert
run = refl

execute_single-InOrder_example : InOrder rt ex req (execute_single rt ex req [] 0)
execute_single-InOrder_example = execute_single-InOrder rt ex req [] 0 empty-IsGood

attempts-stops_example :
    Stopped rt ex req echo 0 0 [] 3 (attempts rt ex req echo 3 0 "" [] 0)
    ⊎ GaveUp rt ex req echo 0 0 [] 2 (attempts rt ex req echo 3 0 "" [] 0)
attempts-stops_example = attempts-stops rt ex req echo [] 0

execute_single-again_example :
    execute_single rt ex req (execute_single rt ex req [] 0).1 9
    ≡ (done (from_cache "echo" echoed), (execute_single rt ex req [] 0).1, 9)
execute_single-again_example =
    execute_single-again rt ex req [] 0 9 echoed refl (ap (λ x. x.0) run) refl

serial-Completes_example :
    Completes rt ex (req ∷ unknown ∷ []) (serial rt ex (req ∷ unknown ∷ []) [] 0).0
    × IsGood (serial rt ex (req ∷ unknown ∷ []) [] 0).1
serial-Completes_example = serial-Completes rt ex (req ∷ unknown ∷ []) [] 0 empty-IsGood

-- Two calls at once: the second is answered while the first one sleeps.
abbrev schedule : List (ℕ × Event)
schedule =
    (0, starts 0)
    ∷ (1, starts 0)
    ∷ (0, ends timed_out 4)
    ∷ (0, wakes 7)
    ∷ (0, ends (returned fine) 8)
    ∷ []

abbrev unknown_result : ExecutionResult
unknown_result = record {
  tool_name = "rm";
  status = ExecutionStatus.failed;
  content = "";
  error = "Unknown tool: rm";
  duration_ms = 0;
  retry_count = 0;
}

run_both :
    gathered (run_events rt ex schedule (tasks_of (req ∷ unknown ∷ [])) []).0
    ≡ some (echoed ∷ unknown_result ∷ [])
unfolding gathered run_events step_at step begin limit retry ended lookup find_tool cache_key
    result_of remember insert unknown_tool timeout_error
run_both = refl

gathered-run_events_example :
    AnswerAll rt ex (req ∷ unknown ∷ []) (echoed ∷ unknown_result ∷ [])
    × IsGood (run_events rt ex schedule (tasks_of (req ∷ unknown ∷ [])) []).1
gathered-run_events_example =
    gathered-run_events rt ex (req ∷ unknown ∷ []) schedule [] (echoed ∷ unknown_result ∷ [])
      empty-IsGood run_both

moves-execute_single_example : moves rt ex req (turns rt ex) (ready, [], 0) ≡ (
  finished (execute_single rt ex req [] 0).0,
  (execute_single rt ex req [] 0).1,
  (execute_single rt ex req [] 0).2,
)
moves-execute_single_example = moves-execute_single rt ex req [] 0

both_complete : is_completed (serial rt ex (req ∷ unknown ∷ []) [] 0).0 ≡ true
unfolding serial execute_single attempts cache_key lookup find_tool invoke_tool back_off result_of
    remember insert unknown_tool
both_complete = refl

parallel-serial_example :
    parallel rt ex (in_turn (turns rt ex) (req ∷ unknown ∷ [])) (req ∷ unknown ∷ []) [] 0
    ≡ serial rt ex (req ∷ unknown ∷ []) [] 0
parallel-serial_example = parallel-serial rt ex (req ∷ unknown ∷ []) [] 0 both_complete
