-- ===== src/Tools/Retry.antt =====
-- tools/base.py, `execute_with_retry` and `_execute_with_context`, and `resolve` of
-- tools/registry.py. What runs a tool's `execute` on a state `W` of the world is an argument.
pub mod Playback
use yellowbullv.Shared.{
  ℕ, zero, suc, ◌+◌, ◌≤◌, ◌<◌, String, ◌≡◌, refl, Option, none, some, Bool, true, false, List, [],
  ◌∷◌, ◌⊎◌, inl, inr, arith, if◌then◌else◌, concat, join, Bool-cases,
}
use yellowbullv.Shared.Json.{Json}
use yellowbullv.Dict.{Dict}
use yellowbullv.Tools.{Tool, ToolRegistry, ToolResult, ToolInfo, find_tool}
use yellowbullv.Tools.Schema.{validate}

pub record ToolContext : Type 0 where
  pub session_id : Option String
  pub user_id : Option String
  pub extra : Dict Json

-- `ToolContext()`
abbrev pub empty_context : ToolContext
empty_context = record { session_id = none; user_id = none; extra = [] }

-- What `execute` does: it returns, or an exception leaves it.
pub data Outcome : Type 0 where
  returned : ToolResult → Outcome
  raised : String → Outcome

-- `[attr] if attr is not None else self.max_retries`
abbrev pub retry_limit : Option ℕ → Tool → ℕ
retry_limit none tool = tool.max_retries
retry_limit (some n) tool = n

abbrev pub rejected : List String → ToolResult
rejected errors = record {
  content = concat ("Parameter validation failed: " ∷ join "; " errors ∷ []);
  success = false;
  error = "";
}

module _ {W : Type 0} (execute : Tool → Dict Json → Option ToolContext → W → Outcome × W) where
  -- `_execute_with_context`
  unfoldable pub execute_with_context : Tool → Dict Json → W → Outcome × W
  execute_with_context tool params w =
      if tool.takes_context
      then execute tool params (some empty_context) w
      else execute tool params none w

  -- The loop `for _ in range(limit)`, from the latest outcome.
  retry_loop : ℕ → Tool → Dict Json → Outcome → W → Outcome × W
  retry_loop zero tool params latest w = (latest, w)
  retry_loop (suc left) tool params (raised e) w = (raised e, w)
  retry_loop (suc left) tool params (returned r) w =
      let again = execute_with_context tool params w in
      let rest = retry_loop left tool params again.0 again.1 in
      if r.success then (returned r, w) else rest

  -- The part after the validation.
  attempts : ℕ → Tool → Dict Json → W → Outcome × W
  attempts limit tool params w =
      let first = execute_with_context tool params w in retry_loop limit tool params first.0 first.1

  unfoldable pub execute_with_retry :
      (List String → List String) → Option ℕ → Tool → Dict Json → W → Outcome × W
  unfolding attempts retry_loop
  execute_with_retry iterate max_retries tool params w = elim (validate iterate tool.info params) [
    | none ↦ (raised "unhashable type", w)
    | some [] ↦ attempts (retry_limit max_retries tool) tool params w
    | some (e ∷ es) ↦ (returned (rejected (e ∷ es)), w)
  ]

  unfoldable pub resolve :
      (List String → List String) → String → Dict Json → ToolRegistry → W → Outcome × W
  resolve iterate name params tools w = elim (find_tool name tools) [
    | none ↦ (
      returned
          (record { content = concat ("Unknown tool: " ∷ name ∷ []); success = false; error = "" }),
      w,
    )
    | some tool ↦ execute_with_retry iterate none tool params w
  ]
