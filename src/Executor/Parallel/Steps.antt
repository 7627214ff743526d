-- ===== src/Executor/Parallel/Steps.antt =====
-- core/tool_executor.py: parallel batches under any schedule.
use yellowbullv.Shared.{
  ℕ, zero, suc, ◌-◌, ◌≤◌, String, ◌≡◌, refl, ap, ◌∙◌, Option, none, some, List, [], ◌∷◌, arith,
  if◌then◌else◌, ltb, Option-cases, Bool-cases, inl, inr,
}
use yellowbullv.Dict.{lookup}
use yellowbullv.Tools.{find_tool}
use yellowbullv.Executor.{
  Runtime, Executor, ToolCallRequest, ExecutionResult, Cache, Single, done, escaped, Attempt,
  returned, timed_out, raised, cancelled, result_of, exhausted, cache_key,
}
use yellowbullv.Executor.Caching.{
  IsGood, IsAnswer, Answers, result_of-IsSound, exhausted-IsSound, remember-IsGood, hit-IsAnswer,
  unknown-IsAnswer,
}
use yellowbullv.Executor.Batch.{AnswerAll}
use yellowbullv.Executor.Parallel.{
  Phase, ready, running, sleeping, finished, Event, starts, ends, wakes, begin, retry, ended, step,
  Task, step_at, run_events, tasks_of, resolve_single, also_some, gathered,
}

module _ (rt : Runtime) (ex : Executor) where
  -- An attempt's number never passes the number of retries, and what is over is in order.
  abbrev pub InPhase : ToolCallRequest → Phase → Type 0
  InPhase req ready = Unit
  InPhase req (running n start) = n ≤ ex.max_retries
  InPhase req (sleeping n) = n ≤ ex.max_retries
  InPhase req (finished s) = Answers (IsAnswer rt ex req) s

  module _ (req : ToolCallRequest) where
    begin-InPhase :
        (now : ℕ) (cache : Cache) → IsGood cache → InPhase req (begin rt ex req now cache)
    unfolding begin
    begin-InPhase now cache good =
        cached (if ex.enable_cache then lookup (cache_key rt req) cache else none) refl
      where
        cached :
            (o : Option ExecutionResult)
            → (if ex.enable_cache then lookup (cache_key rt req) cache else none) ≡ o
            → InPhase req (begin rt ex req now cache)
        cached (some hit) e =
            rw (e, begin)
              (hit-IsAnswer rt ex req hit (good.sound (cache_key rt req) hit (ground arith)))
        cached none e =
            rw (e, begin)
              (elim (Option-cases (find_tool req.tool_name ex.registry)) [
                | inl f ↦ rw f (unknown-IsAnswer rt ex req)
                | inr (tool, f) ↦ rw f (omega arith)
              ])

    exhausted-IsAnswer : (e : String) → IsAnswer rt ex req (exhausted ex req e)
    unfolding exhausted
    exhausted-IsAnswer e = record {
      named = refl;
      sound = exhausted-IsSound ex req e;
      bounded = omega arith;
    }

    retry-InPhase : (n : ℕ) (e : String) → InPhase req (retry rt ex req n e)
    unfolding retry
    retry-InPhase n e = elim (Bool-cases (ltb n ex.max_retries)) [
      | inl more ↦ rw more (ground arith)
      | inr over ↦ rw over (exhausted-IsAnswer e)
    ]

    ended-InPhase :
        (o : Attempt) (n start now : ℕ) (cache : Cache)
        → n ≤ ex.max_retries
        → IsGood cache
        → InPhase req (ended rt ex req o n start now cache).0
          × IsGood (ended rt ex req o n start now cache).1
    unfolding ended
    ended-InPhase (returned r) n start now cache le good = (
      record {
        named = unfold result_of in refl;
        sound = result_of-IsSound req r (now - start) n;
        bounded = unfold result_of in le;
      },
      remember-IsGood ex (cache_key rt req) _ cache (result_of-IsSound req r (now - start) n) good,
    )
    ended-InPhase timed_out n start now cache le good = (retry-InPhase n _, good)
    ended-InPhase (raised e) n start now cache le good = (retry-InPhase n e, good)
    ended-InPhase (cancelled e) n start now cache le good = (tt, good)

    step-InPhase :
        (p : Phase) (e : Event) (cache : Cache)
        → InPhase req p
        → IsGood cache
        → InPhase req (step rt ex req p e cache).0 × IsGood (step rt ex req p e cache).1
    unfolding step
    step-InPhase ready (starts now) cache h good = (begin-InPhase now cache good, good)
    step-InPhase (running n start) (ends o now) cache h good =
        ended-InPhase o n start now cache h good
    step-InPhase (sleeping n) (wakes now) cache h good = (h, good)
    step-InPhase p e cache h good = (h, good)

  abbrev pub AllInPhase : List Task → Type 0
  AllInPhase [] = Unit
  AllInPhase ((req, p) ∷ ts) = InPhase req p × AllInPhase ts

  -- The requests of a list of tasks, which no event changes.
  abbrev pub requests : List Task → List ToolCallRequest
  requests [] = []
  requests ((req, p) ∷ ts) = req ∷ requests ts

  step_at-InPhase :
      (i : ℕ) (e : Event) (ts : List Task) (cache : Cache)
      → AllInPhase ts
      → IsGood cache
      → AllInPhase (step_at rt ex i e ts cache).0
        × IsGood (step_at rt ex i e ts cache).1
        × (requests (step_at rt ex i e ts cache).0 ≡ requests ts)
  unfolding step_at
  step_at-InPhase i e [] cache h good = (tt, good, refl)
  step_at-InPhase zero e ((req, p) ∷ ts) cache (a, h) good =
      let (a', good') = step-InPhase req p e cache a good in ((a', h), good', refl)
  step_at-InPhase (suc i) e ((req, p) ∷ ts) cache (a, h) good =
      let (h', good', same) = step_at-InPhase i e ts cache h good in
      ((a, h'), good', ap (◌∷◌ req) same)

  run_events-InPhase :
      (es : List (ℕ × Event)) (ts : List Task) (cache : Cache)
      → AllInPhase ts
      → IsGood cache
      → AllInPhase (run_events rt ex es ts cache).0
        × IsGood (run_events rt ex es ts cache).1
        × (requests (run_events rt ex es ts cache).0 ≡ requests ts)
  unfolding run_events
  run_events-InPhase [] ts cache h good = (h, good, refl)
  run_events-InPhase ((i, e) ∷ es) ts cache h good =
      let (h', good', same) = step_at-InPhase i e ts cache h good in
      let (h'', good'', same') =
        run_events-InPhase es (step_at rt ex i e ts cache).0 (step_at rt ex i e ts cache).1 h'
          good' in
      (h'', good'', same' ∙ same)

  resolve-IsAnswer :
      (req : ToolCallRequest) (s : Single)
      → Answers (IsAnswer rt ex req) s
      → IsAnswer rt ex req (resolve_single req s)
  unfolding resolve_single
  resolve-IsAnswer req (done r) h = h
  resolve-IsAnswer req (escaped e) h = record {
    named = refl;
    sound = record {
      no_error = λ f. absurd (ground arith);
      no_content = λ f. refl;
      not_timeout = λ f. ground arith;
    };
    bounded = omega arith;
  }

  also_some-inv :
      (r : ExecutionResult) (o : Option (List ExecutionResult)) (rs : List ExecutionResult)
      → also_some r o ≡ some rs
      → (rest : List ExecutionResult) × (o ≡ some rest) × (rs ≡ r ∷ rest)
  also_some-inv r none rs e = absurd (ground arith)
  also_some-inv r (some xs) rs e = (xs, refl, ground arith)

  gathered-AnswerAll :
      (ts : List Task) (rs : List ExecutionResult)
      → AllInPhase ts
      → gathered ts ≡ some rs
      → AnswerAll rt ex (requests ts) rs
  unfolding gathered
  gathered-AnswerAll [] [] h e = tt
  gathered-AnswerAll [] (r ∷ rs) h e = absurd (ground arith)
  gathered-AnswerAll ((req, finished s) ∷ ts) rs (a, h) e =
      let (rest, f, g) = also_some-inv (resolve_single req s) (gathered ts) rs e in
      rw g (resolve-IsAnswer req s a, gathered-AnswerAll ts rest h f)
  gathered-AnswerAll ((req, ready) ∷ ts) rs h e = absurd (ground arith)
  gathered-AnswerAll ((req, running n t) ∷ ts) rs h e = absurd (ground arith)
  gathered-AnswerAll ((req, sleeping n) ∷ ts) rs h e = absurd (ground arith)

  tasks_of-InPhase :
      (reqs : List ToolCallRequest) → AllInPhase (tasks_of reqs) × (requests (tasks_of reqs) ≡ reqs)
  tasks_of-InPhase [] = (tt, refl)
  tasks_of-InPhase (q ∷ qs) = ((tt, (tasks_of-InPhase qs).0), ap (◌∷◌ q) (tasks_of-InPhase qs).1)

  -- Under any schedule, from a cache of successes: once all calls are over, the batch has one
  -- result for each request, in the order of the requests and whatever the order in which they
  -- ended, each in order for its request, and the cache holds successes only.
  pub gathered-run_events :
      (reqs : List ToolCallRequest) (es : List (ℕ × Event)) (cache : Cache)
      (rs : List ExecutionResult)
      → IsGood cache
      → gathered (run_events rt ex es (tasks_of reqs) cache).0 ≡ some rs
      → AnswerAll rt ex reqs rs × IsGood (run_events rt ex es (tasks_of reqs) cache).1
  gathered-run_events reqs es cache rs good e =
      let (fresh, same) = tasks_of-InPhase reqs in
      let (h, good', kept) = run_events-InPhase es (tasks_of reqs) cache fresh good in
      (
        rw (kept ∙ same) at
            (gathered-AnswerAll (run_events rt ex es (tasks_of reqs) cache).0 rs h e),
        good',
      )
