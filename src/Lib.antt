-- ===== src/Lib.antt =====
-- A verification library for the YellowBull agent: a tool-calling chat agent with its executor,
-- context builder, sessions, cache, built-in tools, HTTP server and command line.
--
-- The program and the files that model it:
--
--   Shared      helpers: Boolean tests, lists and texts over the native numbers, JSON values.
--   Dict        a Python dictionary as an association list in insertion order, with its laws.
--   Executor    core/tool_executor.py. `execute_single` is `_execute_single`: the cache, the
--               lookup of the tool, and the retry loop `attempts`. Executor/Retries,
--               Executor/Caching and Executor/Hits are about what one call answers and caches;
--               Executor/Batch is the serial mode of `execute_batch` and the summary of a batch.
--               Executor/Parallel is its parallel mode: each call is a machine that its awaits cut
--               into phases, an event moves one machine, and a schedule is any list of events.
--               Steps is about every schedule, Alone about one call beside the others, Refines
--               about the machine and `attempts`, and Driven takes the events from a world that the
--               calls share; Moves and InTurn are about calls that move one after the other. World
--               is about what calls do to that world.
--   Agent       core/agent.py. `chat` opens or finds the session, adds the user's message and runs
--               `rounds`, the loop between model and tools. Transcript describes what is written
--               into a session, Rounds and Chat are about the loop and a whole call, Requests is
--               about the calls of one round and what the model reads of their results, Answers
--               about the answer against the session, Keeps about what a call leaves as it was, and
--               World about what a call does to the world around it.
--   Context     core/context_builder.py. `build` makes a request's messages from a session; Turns,
--               Summary and Structure are about the grouping, the summary and the whole.
--   Llm         llm/base.py, the messages and the response of a model; Llm/Anthropic and
--               Llm/OpenAi are the two providers: how messages and tool definitions are sent, and
--               how responses and streams are read. Their Api modules have the constructor and
--               `chat` over the client of the API. Llm/Factory is llm/factory.py.
--   Settings    config/settings.py: the settings in Records, schema validation in Schema,
--               reloading in Loading.
--   Session     models/message.py and models/session.py, with the sliding window in
--               Session/Window.
--   Sessions    core/session_manager.py: the adapter interface as a record of operations, its laws
--               in Sessions/Laws, and the in-memory adapter in Sessions/Memory.
--   ShortTerm   core/memory/short_term.py, a bounded buffer; Entries lists it as dictionaries.
--   Cache       core/cache/manager.py, entries with a time to live.
--   Middleware  api/middleware: the API-key check in ApiKey and the sliding-window rate limiter in
--               RateLimit, which Window compares with the whole history of admitted requests.
--   TaskQueue   core/task_queue/queue.py: workers on a shared queue, as a machine that events
--               move, and results as objects on a heap; Validity and Runs are about every run,
--               Waiting about `wait_for`.
--   Validation  core/security/input_validation.py, limits on the user's text.
--   Tools       tools/base.py and tools/registry.py: the registry, validation against a JSON
--               schema in Tools/Schema, retries in Tools/Retry.
--   Builtins    tools/builtins: ReadFile, WriteFile, CreatePath and Command have the `execute` of
--               the file tools and of the shell tool, Lookups the other three, Infos what each is
--               registered with, Calls the binding of a call's arguments and the call. `pathlib`
--               and `open` are the record FileSystem, Laws what is relied on of them, and Memory a
--               file system in memory. Lines has the operations of `str` that the tools use.
--   Server      api/server.py: the endpoints as functions on the store of sessions, the loop of a
--               WebSocket connection in Server/Socket, and the event stream in Server/Stream.
--   Repl        cli/repl.py: a line that is typed moves the state of the command line by `turn`;
--               Screen has what is shown, Start the question for the folder and the whole run.
--   Assembly    the constructor of the agent in core/agent.py, which puts the executor, the registry
--               and the model together, and tools/builtins/__init__.py, which fills the registry.
--               Files is about the file system under a conversation, Providers about the agent over
--               Anthropic's provider. Setup has what `create_app` of api/server.py makes of the
--               settings.
--
-- How the parts interact: the agent hands the calls of a model's response to the executor as a
-- batch and reads the results; the executor finds tools in the registry; the context builder reads
-- the session that the agent writes; the server and the command line call `chat` and read and change
-- the same store of sessions. An operation that changes an object takes its state and
-- returns the new one. The methods and functions keep their names, in lower case; `__init__` is
-- `init`.
--
-- What is a parameter: the clock (readings are arguments, or come from a world that the calls pass
-- on), sleeping, `uuid.uuid4()`, the model's API, `tiktoken`, `json.dumps` and `json.loads`,
-- SHA-256, what a regular expression finds or replaces, reading and checking a configuration file,
-- the file system and the shell under the built-in tools, a web search, `eval`, which may change
-- files, what rich refuses to print, what making the client of an API raises, and, for the executor,
-- running the body of a tool, which Assembly then fills in. Exceptions are values. Times are
-- ticks, natural numbers; the executor's back-off factor is a fraction.
--
-- Bounds and fuel: the loops over `range` recurse on the number of rounds left, the others on
-- lists. The loop that shortens a summary, `cut_down`, has as its fuel the length of the text,
-- which is enough because each round makes the text shorter. In `group_turns`, `rounds` and the
-- retry loops every recursive call is structural.
--
-- What is not modelled: the thread that watches the configuration, the calls of FastAPI and
-- Starlette in `create_app`, main.py, which calls argparse and uvicorn, the set-up of logging and
-- what is written to the log, and the class decorator `inject`, which works by reflection. What a
-- built-in tool does with a value of another type than its signature gives is a parameter of
-- Assembly. What other requests do to the sessions while the server answers one is not modelled:
-- each is answered without a break. Text files are read and written as on a system whose lines end
-- in "\n".
pub mod Shared
pub mod Dict
pub mod Cache
pub mod Middleware
pub mod Tools
pub mod Executor
pub mod Session
pub mod Llm
pub mod Context
pub mod Sessions
pub mod ShortTerm
pub mod Agent
pub mod Validation
pub mod TaskQueue
pub mod Settings
pub mod Builtins
pub mod Server
pub mod Repl
pub mod Assembly
