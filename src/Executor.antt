-- ===== src/Executor.antt =====
-- core/tool_executor.py: one call with cache, timeout and retries, and serial batches. What the
-- executor does not implement (the clock, sleeping, running a tool under a time limit, the JSON
-- encoder, SHA-256) is the argument `Runtime`. Times are in ticks of a millisecond; the back-off
-- factor is a fraction, whose power is exact.
pub mod Retries
pub mod Caching
pub mod Hits
pub mod Batch
pub mod Parallel
pub mod World
mod Tests
use yellowbullv.Shared.{
  ℕ, zero, suc, ◌+◌, ◌-◌, ◌^◌, String, Option, none, some, Bool, true, false, List, [], ◌∷◌, ◌&&◌,
  not, ltb, if◌then◌else◌, ◌==◌, concat, show_nat, str_or, is_nonempty, take_text, all,
}
use yellowbullv.Shared.Json.{Json, obj, is_dict}
use yellowbullv.Dict.{Dict, lookup, insert}
use yellowbullv.Tools.{
  Tool, ToolResult, ToolRegistry, find_tool, CallKind, with_execute, plain_callable, inert,
}

pub data ExecutionStatus : Type 0 where
  success failed timeout retry_exhausted : ExecutionStatus

pub record ToolCallRequest : Type 0 where
  pub tool_name : String
  pub arguments : Json

pub record ExecutionResult : Type 0 where
  pub tool_name : String
  pub status : ExecutionStatus
  pub content : String
  pub error : String
  pub duration_ms : ℕ
  pub retry_count : ℕ

-- `status == ExecutionStatus.SUCCESS`
abbrev pub succeeded : ExecutionStatus → Bool
succeeded success = true
succeeded _ = false

-- How an awaited call ends: it returns, runs out of time, raises an `Exception`, or is left by
-- another exception (a cancellation), which no handler here catches.
pub data Attempt : Type 0 where
  returned : ToolResult → Attempt
  timed_out : Attempt
  raised cancelled : String → Attempt

pub record Runtime : Type 1 where
  pub World : Type 0
  pub clock : World → ℕ
  pub sleep : (num den : ℕ) → World → World
  -- `asyncio.wait_for(tool.execute(**arguments), timeout)`, and the same of `tool(**arguments)`
  pub execute : Tool → Json → ℕ → World → Attempt × World
  pub call : Tool → Json → ℕ → World → Attempt × World
  -- the message of the `TypeError` where the arguments are no dictionary
  pub mapping_error : Tool → Json → String
  pub show_seconds : ℕ → String
  pub dumps : Json → String
  pub sha256 : String → String

-- The settings of an executor; its cache is the one part that changes.
pub record Executor : Type 0 where
  pub registry : ToolRegistry
  pub default_timeout : ℕ
  pub max_retries : ℕ
  pub backoff_num : ℕ
  pub backoff_den : ℕ
  pub parallel : Bool
  pub enable_cache : Bool

abbrev pub Cache : Type 0
Cache = Dict ExecutionResult

abbrev pub clear_cache : Cache → Cache
clear_cache cache = []

-- What `_execute_single` does: it returns a result, or an exception leaves it.
pub data Single : Type 0 where
  done : ExecutionResult → Single
  escaped : String → Single

-- A result with no run behind it: no content, no duration, no retries.
abbrev pub failure : String → ExecutionStatus → String → ExecutionResult
failure name status error = record {
  tool_name = name;
  status = status;
  content = "";
  error = error;
  duration_ms = 0;
  retry_count = 0;
}

-- What a cache hit answers: the cached result without its metadata.
abbrev pub from_cache : String → ExecutionResult → ExecutionResult
from_cache name r = record r { tool_name = name; duration_ms = 0; retry_count = 0 }

-- `getattr(tool, "timeout", None) or self._default_timeout`
unfoldable pub effective_timeout : Executor → Tool → ℕ
effective_timeout ex tool = elim tool.timeout [
  | none ↦ ex.default_timeout
  | some t ↦ if t == 0 then ex.default_timeout else t
]

-- The result of a call that returned.
unfoldable pub result_of : ToolCallRequest → ToolResult → ℕ → ℕ → ExecutionResult
result_of req r duration attempt = record {
  tool_name = req.tool_name;
  status = if r.success then success else failed;
  content = if r.success then r.content else "";
  error = if r.success then "" else str_or r.error "Unknown error";
  duration_ms = duration;
  retry_count = attempt;
}

unfoldable pub timeout_error : (ℕ → String) → ToolCallRequest → ℕ → String
timeout_error show req limit =
    concat ("Tool '" ∷ req.tool_name ∷ "' timed out after " ∷ show limit ∷ "s" ∷ [])

-- The result after the last attempt.
unfoldable pub exhausted : Executor → ToolCallRequest → String → ExecutionResult
exhausted ex req last_error =
    failure req.tool_name (if ltb 0 ex.max_retries then retry_exhausted else failed)
      (concat ("Failed after " ∷ show_nat ex.max_retries ∷ " retries: " ∷ last_error ∷ []))

unfoldable pub unknown_tool : ToolCallRequest → ExecutionResult
unknown_tool req = failure req.tool_name failed (concat ("Unknown tool: " ∷ req.tool_name ∷ []))

-- `if result.success and self._enable_cache`
unfoldable pub remember : Executor → String → ExecutionResult → Cache → Cache
remember ex key r cache =
    if succeeded r.status && ex.enable_cache then insert key r cache else cache

module _ (rt : Runtime) where
  open rt use {World, clock, sleep, execute, call, mapping_error, show_seconds, dumps, sha256}

  -- `ToolCallRequest.cache_key`
  unfoldable pub cache_key : ToolCallRequest → String
  cache_key req = take_text 16 (sha256 (concat (req.tool_name ∷ ":" ∷ dumps req.arguments ∷ [])))

  -- `_invoke_tool` under `wait_for`
  unfoldable pub invoke_tool : Tool → Json → ℕ → World → Attempt × World
  invoke_tool tool arguments limit w = elim tool.kind [
    | with_execute ↦
        if is_dict arguments
        then execute tool arguments limit w
        else (raised (mapping_error tool arguments), w)
    | plain_callable ↦
        if is_dict arguments
        then call tool arguments limit w
        else (raised (mapping_error tool arguments), w)
    | inert ↦ (raised (concat ("Tool '" ∷ tool.shown ∷ "' is not executable" ∷ [])), w)
  ]

  module _ (ex : Executor) (req : ToolCallRequest) (tool : Tool) where
    -- Before an attempt that is not the first: sleep for factor ** attempt.
    unfoldable pub back_off : ℕ → World → World
    back_off attempt w =
        if ltb 0 attempt then sleep (ex.backoff_num ^ attempt) (ex.backoff_den ^ attempt) w else w

    -- The retry loop, with `left` attempts to go.
    unfoldable pub attempts : ℕ → ℕ → String → Cache → World → Single × Cache × World
    attempts zero attempt last_error cache w = (done (exhausted ex req last_error), cache, w)
    attempts (suc left) attempt last_error cache w =
        let limit = effective_timeout ex tool in
        let start = back_off attempt w in
        let (outcome, w') = invoke_tool tool req.arguments limit start in
        elim outcome [
          | returned r ↦
              let result = result_of req r (clock w' - clock start) attempt in
              (done result, remember ex (cache_key req) result cache, w')
          | timed_out ↦ attempts left (suc attempt) (timeout_error show_seconds req limit) cache w'
          | raised e ↦ attempts left (suc attempt) e cache w'
          | cancelled e ↦ (escaped e, cache, w')
        ]

  unfoldable pub execute_single :
      Executor → ToolCallRequest → Cache → World → Single × Cache × World
  unfolding unknown_tool
  execute_single ex req cache w =
      let cached : Option ExecutionResult =
        if ex.enable_cache then lookup (cache_key req) cache else none in
      elim cached [
        | some hit ↦ (done (from_cache req.tool_name hit), cache, w)
        | none ↦ elim (find_tool req.tool_name ex.registry) [
          | none ↦ (done (unknown_tool req), cache, w)
          | some tool ↦ attempts ex req tool (suc ex.max_retries) 0 "" cache w
        ]
      ]
