-- ===== src/Executor/Parallel/Alone.antt =====
-- core/tool_executor.py: one call of a parallel batch by itself, beside the others, and to its end.
use yellowbullv.Shared.{
  ℕ, zero, suc, ◌+◌, ◌-◌, ◌*◌, ◌≤◌, ◌<◌, String, ◌≡◌, refl, ap, ◌∙◌, Bool, true, false, some, List,
  [], ◌∷◌, arith, if◌then◌else◌, ◌==◌, Bool-cases, inl, inr, length, get_elem?,
}
use mathlib.Core.Option.{some-injective}
use mathlib.Core.Path.{subst}
use yellowbullv.Executor.{
  Runtime, Executor, ToolCallRequest, Cache, Attempt, returned, timed_out, raised, cancelled,
  remember,
}
use yellowbullv.Executor.Parallel.{
  Phase, ready, running, sleeping, finished, Event, starts, ends, wakes, begin, retry, ended, step,
  Task, step_at, run_events,
}

module _ (rt : Runtime) (ex : Executor) where
  -- One call under a list of its own events.
  unfoldable pub alone : ToolCallRequest → Phase → List Event → Cache → Phase
  alone req p [] cache = p
  alone req p (e ∷ es) cache =
      alone req (step rt ex req p e cache).0 es (step rt ex req p e cache).1

  -- The events for the task at an index.
  abbrev pub own : ℕ → List (ℕ × Event) → List Event
  own i [] = []
  own i ((j, e) ∷ es) = if j == i then e ∷ own i es else own i es

  module _ (req : ToolCallRequest) (off : ex.enable_cache ≡ false) where
    -- With the cache off a step neither reads nor writes it.
    step_uncached :
        (p : Phase) (e : Event) (c d : Cache)
        → ((step rt ex req p e c).0 ≡ (step rt ex req p e d).0) × ((step rt ex req p e c).1 ≡ c)
    unfolding step remember
    step_uncached ready (starts now) c d = ground arith
    step_uncached (running n start) (ends (returned r) now) c d = ground arith
    step_uncached (sleeping n) (wakes now) c d = (refl, refl)
    step_uncached p e c d = (refl, refl)

    alone_uncached :
        (p : Phase) (es : List Event) (c d : Cache) → alone req p es c ≡ alone req p es d
    unfolding alone
    alone_uncached p [] c d = refl
    alone_uncached p (e ∷ es) c d = rw (step_uncached p e c d).0 (
        alone_uncached (step rt ex req p e d).0 es (step rt ex req p e c).1
          (step rt ex req p e d).1)

  module _ (off : ex.enable_cache ≡ false) where
    step_at_self :
        (i : ℕ) (e : Event) (ts : List Task) (req : ToolCallRequest) (p : Phase) (cache : Cache)
        → get_elem? ts i ≡ some (req, p)
        → get_elem? (step_at rt ex i e ts cache).0 i ≡ some (req, (step rt ex req p e cache).0)
    unfolding step_at
    step_at_self i e [] req p cache h = absurd (ground arith)
    step_at_self zero e ((q, r) ∷ ts) req p cache h =
        ap (λ t. some (t.0, (step rt ex t.0 t.1 e cache).0)) (some-injective _ _ h)
    step_at_self (suc i) e (t ∷ ts) req p cache h = step_at_self i e ts req p cache h

    step_at_other :
        (i j : ℕ) (e : Event) (ts : List Task) (cache : Cache)
        → (j == i) ≡ false
        → get_elem? (step_at rt ex j e ts cache).0 i ≡ get_elem? ts i
    unfolding step_at
    step_at_other i j e [] cache h = refl
    step_at_other zero zero e (t ∷ ts) cache h = absurd (ground arith)
    step_at_other zero (suc j) e (t ∷ ts) cache h = refl
    step_at_other (suc i) zero e ((q, r) ∷ ts) cache h = refl
    step_at_other (suc i) (suc j) e (t ∷ ts) cache h = step_at_other i j e ts cache (ground arith)

    -- With the cache off, the call at an index stands, after any schedule, where its own events alone
    -- bring it: what the other calls do, and when, makes no difference to it.
    pub run_events-alone :
        (es : List (ℕ × Event)) (ts : List Task) (cache : Cache) (i : ℕ) (req : ToolCallRequest)
        (p : Phase)
        → get_elem? ts i ≡ some (req, p)
        → get_elem? (run_events rt ex es ts cache).0 i ≡ some (req, alone req p (own i es) cache)
    unfolding run_events alone
    run_events-alone [] ts cache i req p h = h
    run_events-alone ((j, e) ∷ es) ts cache i req p h = elim (Bool-cases (j == i)) [
      | inl same ↦
          let q : j ≡ i = ground arith in
          let moved = step_at_self j e ts req p cache (rw q h) in
          let here : get_elem? (step_at rt ex j e ts cache).0 i
              ≡ some (req, (step rt ex req p e cache).0) =
            subst
              (λ k.
                get_elem? (step_at rt ex j e ts cache).0 k
                ≡ some (req, (step rt ex req p e cache).0))
              q moved in
          rw same (
            run_events-alone es (step_at rt ex j e ts cache).0 (step_at rt ex j e ts cache).1 i req
              (step rt ex req p e cache).0 here
            ∙ ap (λ x. some (req, x))
                (alone_uncached req off (step rt ex req p e cache).0 (own i es) _
                  (step rt ex req p e cache).1))
      | inr other ↦ rw other (
          run_events-alone es (step_at rt ex j e ts cache).0 (step_at rt ex j e ts cache).1 i req p
            (step_at_other i j e ts cache other ∙ h)
          ∙ ap (λ x. some (req, x)) (alone_uncached req off p (own i es) _ cache))
    ]

  -- Whether an event fits a phase.
  abbrev pub fits : Phase → Event → Bool
  fits ready (starts now) = true
  fits (running n start) (ends o now) = true
  fits (sleeping n) (wakes now) = true
  fits p e = false

  abbrev pub is_over : Phase → Bool
  is_over (finished s) = true
  is_over p = false

  -- How many events can still move a call.
  pub weight : Phase → ℕ
  weight ready = 2 * ex.max_retries + 2
  weight (running n start) = 2 * (ex.max_retries - n) + 1
  weight (sleeping n) = 2 * (ex.max_retries - n) + 2
  weight (finished s) = 0

  module _ (req : ToolCallRequest) where
    weight-retry :
        (n : ℕ) (m : String) → weight (retry rt ex req n m) < 2 * (ex.max_retries - n) + 1
    unfolding retry weight
    weight-retry n m = ground arith

    weight-ended :
        (o : Attempt) (n start now : ℕ) (cache : Cache)
        → weight (ended rt ex req o n start now cache).0 < 2 * (ex.max_retries - n) + 1
    unfolding ended
    weight-ended (returned r) n start now cache = unfold weight in omega arith
    weight-ended timed_out n start now cache = weight-retry n _
    weight-ended (raised e) n start now cache = weight-retry n e
    weight-ended (cancelled e) n start now cache = unfold weight in omega arith

    weight-begin :
        (now : ℕ) (cache : Cache) → weight (begin rt ex req now cache) < 2 * ex.max_retries + 2
    unfolding begin weight
    weight-begin now cache = ground arith

    weight-step :
        (p : Phase) (e : Event) (cache : Cache)
        → fits p e ≡ true
        → weight (step rt ex req p e cache).0 < weight p
    unfolding step
    weight-step ready (starts now) cache h = unfold weight in weight-begin now cache
    weight-step (running n start) (ends o now) cache h =
        unfold weight in weight-ended o n start now cache
    weight-step (sleeping n) (wakes now) cache h = unfold weight in omega arith
    weight-step p e cache h = absurd (ground arith)

    -- Each of the events fits the phase that it meets.
    abbrev pub AllFit : Phase → List Event → Cache → Type 0
    AllFit p [] cache = Unit
    AllFit p (e ∷ es) cache =
        (fits p e ≡ true) × AllFit (step rt ex req p e cache).0 es (step rt ex req p e cache).1

    events_bounded :
        (es : List Event) (p : Phase) (cache : Cache) → AllFit p es cache → length es ≤ weight p
    events_bounded [] p cache h = omega arith
    events_bounded (e ∷ es) p cache (f, h) = omega (
      arith,
      weight-step p e cache f,
      events_bounded es (step rt ex req p e cache).0 (step rt ex req p e cache).1 h,
    )

    -- From its start at most `2 * max_retries + 2` events can move a call: a list of events that
    -- each fit the phase that they meet is no longer.
    call_bounded :
        (es : List Event) (cache : Cache)
        → AllFit ready es cache
        → length es ≤ 2 * ex.max_retries + 2
    call_bounded es cache h = unfold weight in events_bounded es ready cache h
