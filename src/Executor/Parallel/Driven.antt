-- ===== src/Executor/Parallel/Driven.antt =====
-- The machine of parallel calls driven by a world: a schedule says which call moves next, and what moves
-- it comes from the world: the clock, the end of its sleep, or the run of its tool. A tool's effect on
-- the world stands at the moment when its call ends.
use yellowbullv.Shared.{ℕ, zero, suc, ◌^◌, String, ◌≡◌, refl, Option, none, some, List, [], ◌∷◌}
use yellowbullv.Shared.Json.{Json}
use yellowbullv.Tools.{Tool, find_tool}
use yellowbullv.Executor.{
  Runtime, Executor, ToolCallRequest, ExecutionResult, Cache, Attempt, raised, effective_timeout,
  invoke_tool,
}
use yellowbullv.Executor.Batch.{Batch, completed, aborted}
use yellowbullv.Executor.Parallel.{
  Phase, ready, running, sleeping, finished, Event, starts, ends, wakes, Task, step_at, run_events,
  tasks_of, gathered,
}

abbrev pub outcome_of : Option (List ExecutionResult) → Batch
outcome_of none = aborted "cancelled"
outcome_of (some rs) = completed rs

module _ (rt : Runtime) (ex : Executor) where
  open rt use {World, clock, sleep}

  -- The run of a tool that was found when the call started.
  unfoldable pub run_found : Option Tool → Json → World → Attempt × World
  run_found none arguments w = (raised "the tool is gone", w)
  run_found (some tool) arguments w = invoke_tool rt tool arguments (effective_timeout ex tool) w

  -- What happens to a call next.
  unfoldable pub next_event : ToolCallRequest → Phase → World → Event × World
  unfolding run_found
  next_event req ready w = (starts (clock w), w)
  next_event req (running attempt start) w =
      let (o, w') = run_found (find_tool req.tool_name ex.registry) req.arguments w in
      (ends o (clock w'), w')
  next_event req (sleeping attempt) w =
      let w' = sleep (ex.backoff_num ^ attempt) (ex.backoff_den ^ attempt) w in
      (wakes (clock w'), w')
  next_event req (finished s) w = (starts (clock w), w)

  unfoldable pub event_at : ℕ → List Task → World → Event × World
  unfolding next_event
  event_at i [] w = (starts (clock w), w)
  event_at zero ((req, p) ∷ ts) w = next_event req p w
  event_at (suc i) (t ∷ ts) w = event_at i ts w

  -- The calls at these indices move, one after the other.
  unfoldable pub drive : List ℕ → List Task → Cache → World → List Task × Cache × World
  unfolding event_at
  drive [] ts cache w = (ts, cache, w)
  drive (i ∷ is) ts cache w =
      let (e, w') = event_at i ts w in
      let (ts', cache') = step_at rt ex i e ts cache in drive is ts' cache' w'

  -- A parallel batch under a schedule; one that ends before the calls do stands for a cancellation.
  unfoldable pub parallel : List ℕ → List ToolCallRequest → Cache → World → Batch × Cache × World
  unfolding drive
  parallel schedule reqs cache w =
      let (ts, cache', w') = drive schedule (tasks_of reqs) cache w in
      (outcome_of (gathered ts), cache', w')

  -- The events that drive the calls.
  unfoldable pub events_of : List ℕ → List Task → Cache → World → List (ℕ × Event)
  events_of [] ts cache w = []
  events_of (i ∷ is) ts cache w =
      let (e, w') = event_at i ts w in
      let (ts', cache') = step_at rt ex i e ts cache in (i, e) ∷ events_of is ts' cache' w'

  -- Driving the calls is a run of the machine: the tasks and the cache are those of its events.
  pub drive-run_events :
      (schedule : List ℕ) (ts : List Task) (cache : Cache) (w : World)
      → ((drive schedule ts cache w).0, (drive schedule ts cache w).1)
        ≡ run_events rt ex (events_of schedule ts cache w) ts cache
  unfolding drive events_of run_events
  drive-run_events [] ts cache w = refl
  drive-run_events (i ∷ is) ts cache w =
      let (e, w') = event_at i ts w in
      let (ts', cache') = step_at rt ex i e ts cache in drive-run_events is ts' cache' w'

  module _ (P : World → Type 0) (sleeps : (num den : ℕ) (w : World) → P w → P (sleep num den w))
      (invokes : (name : String) (tool : Tool) (arguments : Json) (limit : ℕ) (w : World)
        → find_tool name ex.registry ≡ some tool
        → P w
        → P (invoke_tool rt tool arguments limit w).1) where
    run_found_keeps :
        (name : String) (arguments : Json) (o : Option Tool) (w : World)
        → find_tool name ex.registry ≡ o
        → P w
        → P (run_found o arguments w).1
    unfolding run_found
    run_found_keeps name arguments none w e h = h
    run_found_keeps name arguments (some tool) w e h = invokes name tool arguments _ w e h

    next_event_keeps :
        (req : ToolCallRequest) (p : Phase) (w : World) → P w → P (next_event req p w).1
    unfolding next_event
    next_event_keeps req ready w h = h
    next_event_keeps req (running attempt start) w h =
        run_found_keeps req.tool_name req.arguments _ w refl h
    next_event_keeps req (sleeping attempt) w h = sleeps _ _ w h
    next_event_keeps req (finished s) w h = h

    event_at_keeps : (i : ℕ) (ts : List Task) (w : World) → P w → P (event_at i ts w).1
    unfolding event_at
    event_at_keeps i [] w h = h
    event_at_keeps zero ((req, p) ∷ ts) w h = next_event_keeps req p w h
    event_at_keeps (suc i) (t ∷ ts) w h = event_at_keeps i ts w h

    drive_keeps :
        (schedule : List ℕ) (ts : List Task) (cache : Cache) (w : World)
        → P w
        → P (drive schedule ts cache w).2
    unfolding drive
    drive_keeps [] ts cache w h = h
    drive_keeps (i ∷ is) ts cache w h = drive_keeps is _ _ _ (event_at_keeps i ts w h)

    -- A parallel batch, under every schedule, keeps what sleeping and the registered tools keep of the
    -- world.
    pub parallel_keeps :
        (schedule : List ℕ) (reqs : List ToolCallRequest) (cache : Cache) (w : World)
        → P w
        → P (parallel schedule reqs cache w).2
    unfolding parallel
    parallel_keeps schedule reqs cache w h = drive_keeps schedule (tasks_of reqs) cache w h
