-- ===== src/Executor/World.antt =====
-- What the executor's calls do to the world: a predicate that sleeping and the calls of tools keep.
use yellowbullv.Shared.{
  ℕ, zero, suc, ◌-◌, String, ◌≡◌, refl, Option, none, some, Bool, true, false, List, [], ◌∷◌, ltb,
  if◌then◌else◌, concat, Bool-cases, inl, inr,
}
use yellowbullv.Shared.Json.{Json, is_dict}
use yellowbullv.Dict.{lookup}
use yellowbullv.Tools.{Tool, find_tool, CallKind, with_execute, plain_callable, inert}
use yellowbullv.Executor.{
  Runtime, Executor, ToolCallRequest, ExecutionResult, Cache, Single, done, escaped, Attempt,
  returned, timed_out, raised, cancelled, effective_timeout, invoke_tool, back_off, attempts,
  execute_single, cache_key, result_of, remember, timeout_error, unknown_tool, from_cache,
}
use yellowbullv.Executor.Batch.{Batch, aborted, also, serial}

-- A call of a tool keeps what its two ways to be run keep.
pub invoke_tool_keeps :
    (rt : Runtime) (P : rt.World → Type 0) (tool : Tool) (arguments : Json) (limit : ℕ)
    (w : rt.World)
    → P w
    → P (rt.execute tool arguments limit w).1
    → P (rt.call tool arguments limit w).1
    → P (invoke_tool rt tool arguments limit w).1
unfolding invoke_tool
invoke_tool_keeps rt P tool arguments limit w h executed called =
    by_kind tool.kind (is_dict arguments)
  where
    by_kind :
        (k : CallKind) (dict : Bool)
        → P
            (let out : Attempt × rt.World = elim k [
              | with_execute ↦
                  if dict
                  then rt.execute tool arguments limit w
                  else (raised (rt.mapping_error tool arguments), w)
              | plain_callable ↦
                  if dict
                  then rt.call tool arguments limit w
                  else (raised (rt.mapping_error tool arguments), w)
              | inert ↦ (raised (concat ("Tool '" ∷ tool.shown ∷ "' is not executable" ∷ [])), w)
            ] in
              out).1
    by_kind with_execute true = executed
    by_kind with_execute false = h
    by_kind plain_callable true = called
    by_kind plain_callable false = h
    by_kind inert dict = h

module _ (rt : Runtime) (ex : Executor) (P : rt.World → Type 0)
    (sleeps : (num den : ℕ) (w : rt.World) → P w → P (rt.sleep num den w))
    (invokes : (name : String) (tool : Tool) (arguments : Json) (limit : ℕ) (w : rt.World)
      → find_tool name ex.registry ≡ some tool
      → P w
      → P (invoke_tool rt tool arguments limit w).1) where
  back_off_keeps :
      (req : ToolCallRequest) (tool : Tool) (attempt : ℕ) (w : rt.World)
      → P w
      → P (back_off rt ex req tool attempt w)
  unfolding back_off
  back_off_keeps req tool attempt w h = elim (Bool-cases (ltb 0 attempt)) [
    | inl e ↦ rw e (sleeps _ _ w h)
    | inr e ↦ rw e h
  ]

  attempts_keeps :
      (req : ToolCallRequest) (tool : Tool)
      → find_tool req.tool_name ex.registry ≡ some tool
      → (left attempt : ℕ) (last_error : String) (cache : Cache) (w : rt.World) → P w
      → P (attempts rt ex req tool left attempt last_error cache w).2
  unfolding attempts
  attempts_keeps req tool known zero attempt last_error cache w h = h
  attempts_keeps req tool known (suc left) attempt last_error cache w h =
      let limit = effective_timeout ex tool in
      let start = back_off rt ex req tool attempt w in
      let ran = invoke_tool rt tool req.arguments limit start in
      let ok' =
        invokes req.tool_name tool req.arguments limit start known
          (back_off_keeps req tool attempt w h) in
      go ran.0 ran.1 ok' (λ e. attempts_keeps req tool known left (suc attempt) e cache ran.1 ok')
    where
      start' : rt.World
      start' = back_off rt ex req tool attempt w

      go :
          (o : Attempt) (w' : rt.World)
          → P w'
          → ((e : String) → P (attempts rt ex req tool left (suc attempt) e cache w').2)
          → P
              (let out : Single × Cache × rt.World = elim o [
                | returned r ↦
                    let result = result_of req r (rt.clock w' - rt.clock start') attempt in
                    (done result, remember ex (cache_key rt req) result cache, w')
                | timed_out ↦
                    attempts rt ex req tool left
                      (suc attempt)
                      (timeout_error rt.show_seconds req (effective_timeout ex tool))
                      cache
                      w'
                | raised e ↦ attempts rt ex req tool left (suc attempt) e cache w'
                | cancelled e ↦ (escaped e, cache, w')
              ] in
                out).2
      go (returned r) w' k again = k
      go timed_out w' k again = again _
      go (raised e) w' k again = again e
      go (cancelled e) w' k again = k

  execute_single_keeps :
      (req : ToolCallRequest) (cache : Cache) (w : rt.World)
      → P w
      → P (execute_single rt ex req cache w).2
  unfolding execute_single
  execute_single_keeps req cache w h =
      outer (if ex.enable_cache then lookup (cache_key rt req) cache else none)
    where
      inner :
          (o : Option Tool)
          → find_tool req.tool_name ex.registry ≡ o
          → P
              (let out : Single × Cache × rt.World = elim o [
                | none ↦ (done (unknown_tool req), cache, w)
                | some tool ↦ attempts rt ex req tool (suc ex.max_retries) 0 "" cache w
              ] in
                out).2
      inner none e = h
      inner (some tool) e = attempts_keeps req tool e (suc ex.max_retries) 0 "" cache w h

      outer :
          (o : Option ExecutionResult)
          → P
              (let out : Single × Cache × rt.World = elim o [
                | some hit ↦ (done (from_cache req.tool_name hit), cache, w)
                | none ↦ elim (find_tool req.tool_name ex.registry) [
                  | none ↦ (done (unknown_tool req), cache, w)
                  | some tool ↦ attempts rt ex req tool (suc ex.max_retries) 0 "" cache w
                ]
              ] in
                out).2
      outer (some hit) = h
      outer none = inner (find_tool req.tool_name ex.registry) refl

  -- A serial batch keeps what sleeping and the registered tools keep of the world.
  pub serial_keeps :
      (reqs : List ToolCallRequest) (cache : Cache) (w : rt.World)
      → P w
      → P (serial rt ex reqs cache w).2
  unfolding serial
  serial_keeps [] cache w h = h
  serial_keeps (req ∷ reqs) cache w h =
      let one = execute_single rt ex req cache w in
      go one.0 (execute_single_keeps req cache w h)
        (serial_keeps reqs one.1 one.2 (execute_single_keeps req cache w h))
    where
      first : Single × Cache × rt.World
      first = execute_single rt ex req cache w

      others : Batch × Cache × rt.World
      others = serial rt ex reqs first.1 first.2

      go :
          (a : Single)
          → P first.2
          → P others.2
          → P
              (let out : Batch × Cache × rt.World = elim a [
                | escaped e ↦ (aborted e, first.1, first.2)
                | done r ↦ (also r others.0, others.1, others.2)
              ] in
                out).2
      go (escaped e) k rest = k
      go (done r) k rest = rest
