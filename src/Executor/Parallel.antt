-- ===== src/Executor/Parallel.antt =====
-- core/tool_executor.py, `execute_batch` in its parallel mode: `asyncio.gather` over the calls. The
-- event loop switches tasks only where one awaits, so a call is a machine that an event moves on:
-- it starts, the call of its tool ends, or its sleep ends. What ends when is the environment's; a
-- schedule is any list of events, each for the task at an index. The cache is shared.
pub mod Steps
pub mod Alone
pub mod Refines
pub mod Driven
pub mod Moves
pub mod InTurn
use yellowbullv.Shared.{
  ℕ, zero, suc, ◌+◌, ◌-◌, String, Bool, true, false, Option, none, some, List, [], ◌∷◌, ltb, ◌==◌,
  if◌then◌else◌, concat, map,
}
use yellowbullv.Dict.{lookup}
use yellowbullv.Tools.{Tool, find_tool}
use yellowbullv.Executor.{
  Runtime, Executor, ToolCallRequest, ExecutionResult, ExecutionStatus, failed, Cache, Single, done,
  escaped, Attempt, returned, timed_out, raised, cancelled, effective_timeout, result_of,
  timeout_error, exhausted, remember, cache_key, from_cache, unknown_tool, failure,
}

-- Where a call stands: not started, awaiting its tool in an attempt that began at a time, sleeping
-- before an attempt, or over.
pub data Phase : Type 0 where
  ready : Phase
  running : (attempt start : ℕ) → Phase
  sleeping : (attempt : ℕ) → Phase
  finished : Single → Phase

-- The clock's reading stands in each event.
pub data Event : Type 0 where
  starts : (now : ℕ) → Event
  ends : Attempt → (now : ℕ) → Event
  wakes : (now : ℕ) → Event

module _ (rt : Runtime) (ex : Executor) (req : ToolCallRequest) where
  open rt use {show_seconds}

  -- From the start to the first await.
  unfoldable pub begin : ℕ → Cache → Phase
  begin now cache =
      let cached : Option ExecutionResult =
        if ex.enable_cache then lookup (cache_key rt req) cache else none in
      elim cached [
        | some hit ↦ finished (done (from_cache req.tool_name hit))
        | none ↦ elim (find_tool req.tool_name ex.registry) [
          | none ↦ finished (done (unknown_tool req))
          | some tool ↦ running 0 now
        ]
      ]

  -- The limit that the current tool runs under.
  unfoldable pub limit : ℕ
  limit = elim (find_tool req.tool_name ex.registry) [
    | none ↦ ex.default_timeout
    | some tool ↦ effective_timeout ex tool
  ]

  -- After a failed attempt: sleep before the next one, or give up.
  unfoldable pub retry : ℕ → String → Phase
  retry attempt last_error =
      if ltb attempt ex.max_retries
      then sleeping (suc attempt)
      else finished (done (exhausted ex req last_error))

  unfoldable pub ended : Attempt → ℕ → ℕ → ℕ → Cache → Phase × Cache
  ended (returned r) attempt start now cache =
      let result = result_of req r (now - start) attempt in
      (finished (done result), remember ex (cache_key rt req) result cache)
  ended timed_out attempt start now cache =
      (retry attempt (timeout_error show_seconds req limit), cache)
  ended (raised e) attempt start now cache = (retry attempt e, cache)
  ended (cancelled e) attempt start now cache = (finished (escaped e), cache)

  -- An event that does not fit the phase leaves all as it is.
  unfoldable pub step : Phase → Event → Cache → Phase × Cache
  unfolding begin limit retry ended unknown_tool
  step ready (starts now) cache = (begin now cache, cache)
  step (running attempt start) (ends o now) cache = ended o attempt start now cache
  step (sleeping attempt) (wakes now) cache = (running attempt now, cache)
  step p e cache = (p, cache)

abbrev pub Task : Type 0
Task = ToolCallRequest × Phase

module _ (rt : Runtime) (ex : Executor) where
  -- One event of the task at an index.
  unfoldable pub step_at : ℕ → Event → List Task → Cache → List Task × Cache
  step_at i e [] cache = ([], cache)
  step_at zero e ((req, p) ∷ ts) cache =
      let (p', cache') = step rt ex req p e cache in ((req, p') ∷ ts, cache')
  step_at (suc i) e (t ∷ ts) cache = let (ts', cache') = step_at i e ts cache in (t ∷ ts', cache')

  unfoldable pub run_events : List (ℕ × Event) → List Task → Cache → List Task × Cache
  run_events [] ts cache = (ts, cache)
  run_events ((i, e) ∷ es) ts cache =
      let (ts', cache') = step_at i e ts cache in run_events es ts' cache'

-- `tasks = [self._execute_single(req) for req in requests]`
abbrev pub tasks_of : List ToolCallRequest → List Task
tasks_of reqs = map (λ q. (q, ready)) reqs

-- With `return_exceptions=True`, what left a task becomes a failed result.
unfoldable pub resolve_single : ToolCallRequest → Single → ExecutionResult
resolve_single req (done r) = r
resolve_single req (escaped e) =
    failure req.tool_name failed (concat ("Unexpected error: " ∷ e ∷ []))

abbrev pub also_some :
    ExecutionResult → Option (List ExecutionResult) → Option (List ExecutionResult)
also_some r none = none
also_some r (some rs) = some (r ∷ rs)

-- The results once all tasks are over; `none` before that.
unfoldable pub gathered : List Task → Option (List ExecutionResult)
unfolding resolve_single
gathered [] = some []
gathered ((req, finished s) ∷ ts) = also_some (resolve_single req s) (gathered ts)
gathered ((req, p) ∷ ts) = none
