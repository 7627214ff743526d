-- ===== src/Assembly.antt =====
-- The parts put together as `Agent.__init__` does: `chat` of core/agent.py over the batches of the
-- executor of core/tool_executor.py, whose tools are those of tools/builtins/.
pub mod Files
pub mod Providers
pub mod Setup
mod Tests
use yellowbullv.Shared.{
  ℕ, String, Option, none, some, Bool, true, false, List, [], ◌∷◌, if◌then◌else◌, str_eq,
}
use yellowbullv.Shared.Json.{Json, obj, Fields, fields}
use yellowbullv.Dict.{Dict}
use yellowbullv.Session.{Session}
use yellowbullv.Llm.{LlmMessage}
use yellowbullv.Tools.{
  Tool, ToolInfo, ToolRegistry, with_execute, register, to_function_definitions,
}
use yellowbullv.Executor.{Runtime, Executor, ToolCallRequest, Attempt, timed_out, raised, Cache}
use yellowbullv.Executor
use yellowbullv.Executor.Batch.{Batch, serial}
use yellowbullv.Executor.Parallel.Driven.{parallel}
use yellowbullv.Agent.{Services, AgentConfig, Reply}
use yellowbullv.Settings.Records.{Settings}
use yellowbullv.Builtins.{Run, returned, escaped}
use yellowbullv.Builtins.Calls.{
  Builtin, calculator, execute_command, create_file_folder, current_time, read_file, write_file,
  web_search, info_of, Call, command_call, bind_call, Host, run_call,
}

-- The class that registered a name.
unfoldable pub builtin_named : String → Option Builtin
builtin_named name =
    if str_eq name "calculator"
    then some calculator
    else if str_eq name "execute_command"
    then some execute_command
    else if str_eq name "create_file_folder"
    then some create_file_folder
    else if str_eq name "current_time"
    then some current_time
    else if str_eq name "read_file"
    then some read_file
    else if str_eq name "write_file"
    then some write_file
    else if str_eq name "web_search"
    then some web_search
    else none

-- The instance that `register_tool` makes of a class.
abbrev pub tool_of : Builtin → Tool
tool_of b = record {
  info = info_of b;
  max_retries = 0;
  takes_context = false;
  timeout = none;
  kind = with_execute;
  shown = "";
}

unfoldable pub register_all : List Builtin → ToolRegistry → ToolRegistry
unfolding register
register_all [] tools = tools
register_all (b ∷ bs) tools = register_all bs (register (tool_of b) tools)

-- Importing the package registers its tools.
unfoldable pub builtin_registry : ToolRegistry
unfolding register_all
builtin_registry =
    register_all
      (calculator ∷ execute_command ∷ create_file_folder ∷ current_time ∷ read_file ∷ write_file
        ∷ web_search ∷ [])
      []

-- What the program meets besides the host of the tools: the clock, ids, the model, JSON, SHA-256, the
-- context builder, and what a shell command leaves that its time limit cuts off, if it does.
pub record Outside (host : Host) : Type 1 where
  pub Rest : Type 0
  pub clock : Rest → ℕ
  pub sleep : (num den : ℕ) → Rest → Rest
  pub tick : Rest → ℕ × Rest
  pub uuid : Rest → String × Rest
  pub llm : List LlmMessage → List Json → Rest → Reply × Rest
  pub build : Session → List LlmMessage
  pub loads : String → Option Json
  pub dumps : Json → String
  pub sha256 : String → String
  pub show_seconds : ℕ → String
  pub mapping_error : Tool → Json → String
  -- the order in which the calls of a parallel batch move
  pub schedule : List ToolCallRequest → Rest → List ℕ
  pub cut_off : Call → ℕ → host.files.Store → Option host.files.Store
  -- a call of a built-in tool with arguments that do not fit the signature of `execute`: Python refuses it
  -- where their names do not fit, and where their types do not, it goes on with them
  pub misfit : Builtin → Json → host.files.Store × Rest → Attempt × (host.files.Store × Rest)
  -- a registered tool that is none of the built-in ones
  pub other_tool : Tool → Json → ℕ → host.files.Store × Rest → Attempt × (host.files.Store × Rest)

-- `ToolExecutor(registry=…, …, parallel=True, …)` of `Agent.__init__`.
abbrev pub agent_executor : ToolRegistry → Settings → Executor
agent_executor registry settings = record {
  registry = registry;
  default_timeout = settings.agent.tools.tool_timeout_seconds;
  max_retries = settings.agent.tool_retry_limit;
  backoff_num = settings.agent.tools.retry_backoff_factor.0;
  backoff_den = settings.agent.tools.retry_backoff_factor.1;
  parallel = true;
  enable_cache = settings.agent.tools.enable_cache;
}

-- What `chat` reads of the settings.
abbrev pub agent_config : Settings → AgentConfig
agent_config settings = record {
  max_chain_depth = settings.agent.max_chain_depth;
  max_tool_calls_per_turn = settings.agent.max_tool_calls_per_turn;
}

module _ (host : Host) (out : Outside host) where
  abbrev pub Machine : Type 0
  Machine = host.files.Store × out.Rest

  abbrev pub attempt_of : Run → Attempt
  attempt_of (returned r) = Executor.returned r
  attempt_of (escaped e) = raised e

  abbrev pub ran : Call → Machine → Attempt × Machine
  ran call (st, rest) = let (r, st') = run_call host call st in (attempt_of r, (st', rest))

  abbrev pub ran_unless : Option host.files.Store → Call → Machine → Attempt × Machine
  ran_unless none call m = ran call m
  ran_unless (some st') call (st, rest) = (timed_out, (st', rest))

  -- `wait_for` on the call: of the tools only the shell tool waits for anything.
  unfoldable pub run_within : ℕ → Call → Machine → Attempt × Machine
  run_within limit (command_call c d t) m =
      ran_unless (out.cut_off (command_call c d t) limit m.0) (command_call c d t) m
  run_within limit call m = ran call m

  abbrev pub arguments_of : Json → Dict Json
  arguments_of (obj fs) = fields fs
  arguments_of v = []

  abbrev pub run_bound : ℕ → Builtin → Json → Option Call → Machine → Attempt × Machine
  run_bound limit b arguments none m = out.misfit b arguments m
  run_bound limit b arguments (some call) m = run_within limit call m

  -- `tool.execute(**arguments)`
  abbrev pub run_tool : Option Builtin → Tool → Json → ℕ → Machine → Attempt × Machine
  run_tool none tool arguments limit m = out.other_tool tool arguments limit m
  run_tool (some b) tool arguments limit m =
      run_bound limit b arguments (bind_call b (arguments_of arguments)) m

  abbrev pub runtime : Runtime
  runtime = record {
    World = Machine;
    clock = λ m. out.clock m.1;
    sleep = λ num den m. (m.0, out.sleep num den m.1);
    execute =
        λ tool arguments limit m. run_tool (builtin_named tool.info.name) tool arguments limit m;
    call = λ tool arguments limit m. (raised "not callable", m);
    mapping_error = out.mapping_error;
    show_seconds = out.show_seconds;
    dumps = out.dumps;
    sha256 = out.sha256;
  }

  -- `execute_batch`
  unfoldable pub run_batch :
      Executor → List ToolCallRequest → Cache → Machine → Batch × Cache × Machine
  run_batch ex calls cache m =
      let one_by_one = serial runtime ex calls cache m in
      let interleaved = parallel runtime ex (out.schedule calls m.1) calls cache m in
      if ex.parallel then interleaved else one_by_one

  -- The services of the agent: its world is the files, the rest, and the executor's cache.
  abbrev pub services : Executor → Services
  services ex = record {
    World = host.files.Store × out.Rest × Cache;
    uuid = λ w. let (id, rest) = out.uuid w.1 in (id, (w.0, rest, w.2));
    tick = λ w. let (t, rest) = out.tick w.1 in (t, (w.0, rest, w.2));
    llm = λ messages definitions w.
        let (reply, rest) = out.llm messages definitions w.1 in (reply, (w.0, rest, w.2));
    batch =
        λ calls w. let (b, cache, m) = run_batch ex calls w.2 (w.0, w.1) in (b, (m.0, m.1, cache));
    loads = out.loads;
    build = out.build;
    definitions = to_function_definitions ex.registry;
  }
