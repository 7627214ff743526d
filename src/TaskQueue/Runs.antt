-- ===== src/TaskQueue/Runs.antt =====
-- What holds of a task queue after any run of its events.
use yellowbullv.Shared.{
  ℕ, String, ◌≡◌, refl, Option, none, some, List, [], ◌∷◌, arith, get_elem?, All,
}
use mathlib.Core.Path.{subst}
use yellowbullv.Dict.{lookup}
use yellowbullv.TaskQueue.{
  TaskResult, Worker, waiting, busy, Outcome, returned, raised, cancelled, update_at, mark_running,
  mark_ended, worker_after, TaskQueue, Event, starts, stops, submits, checks, expires, takes, ends,
  init, begin_task, take_at, end_at, step, run,
}
use yellowbullv.TaskQueue.Objects.{
  length-update_at, All-update_at, All-member, All-map, KeepsStart, mark_ended-KeepsStart,
  is_started-mark_running, mark_ended-IsShaped,
}
use yellowbullv.TaskQueue.Validity.{
  Holds, Holds-update_at, update_at-Holds, Known, IsValid, start-IsValid, submit-IsValid,
  check-IsValid, expire-IsValid,
}

module _ {F : Type 0} where
  -- A task that is taken: its id has a result, an object on the heap.
  begin-IsValid :
      (i now : ℕ) (tid : String) (fn : F) (rest : List (String × F)) (q : TaskQueue F)
      → (o : Option ℕ) → lookup tid q.results ≡ o
      → q.queue ≡ (tid, fn) ∷ rest
      → IsValid q
      → IsValid (begin_task i now o rest q)
  begin-IsValid i now tid fn rest q none e f v =
      let known : All (Known q.results) ((tid, fn) ∷ rest) =
        subst (All (Known q.results)) f v.queued in
      absurd (let p = known.0 in ground arith)
  begin-IsValid i now tid fn rest q (some a) e f v =
      let known : All (Known q.results) ((tid, fn) ∷ rest) =
        subst (All (Known q.results)) f v.queued in
      let there = v.known tid a e in
      let keeps : KeepsStart (mark_running now) = λ r h. refl in
      let heap : List TaskResult = update_at a (mark_running now) q.heap in
      record {
        queued = known.1;
        known = λ k b h.
            (let old = v.known k b h in
              omega (arith, old, length-update_at a (mark_running now) q.heap));
        shaped = All-update_at a (mark_running now) q.heap (λ x g p. refl) v.shaped;
        held =
            update_at-Holds heap i (busy a) q.workers (is_started-mark_running a now q.heap there)
              (All-map q.workers (Holds-update_at a (mark_running now) q.heap keeps) v.held);
      }

  take-IsValid :
      (i now : ℕ) (w : Option Worker) (ts : List (String × F)) (q : TaskQueue F)
      → q.queue ≡ ts
      → IsValid q
      → IsValid (take_at i now w ts q)
  unfolding take_at
  take-IsValid i now (some waiting) ((tid, fn) ∷ rest) q f v =
      begin-IsValid i now tid fn rest q (lookup tid q.results) refl f v
  take-IsValid i now w ts q f v = v

  end-IsValid :
      (i : ℕ) (o : Outcome) (now : ℕ) (w : Option Worker) (q : TaskQueue F)
      → get_elem? q.workers i ≡ w
      → IsValid q
      → IsValid (end_at i o now w q)
  unfolding end_at
  end-IsValid i o now (some (busy a)) q e v =
      let here : Holds q.heap (busy a) = All-member (Holds q.heap) q.workers i (busy a) v.held e in
      let f = mark_ended o now in
      record {
        queued = v.queued;
        known =
            λ k b h. (let old = v.known k b h in omega (arith, old, length-update_at a f q.heap));
        shaped =
            All-update_at a f q.heap (λ x g p. mark_ended-IsShaped o now x (ground arith) p)
              v.shaped;
        held =
            update_at-Holds (update_at a f q.heap) i (worker_after o) q.workers (idle o)
              (All-map q.workers (Holds-update_at a f q.heap (mark_ended-KeepsStart o now)) v.held);
      }
    where
      idle : (o' : Outcome) → Holds (update_at a (mark_ended o now) q.heap) (worker_after o')
      idle (returned x) = tt
      idle (raised x) = tt
      idle cancelled = tt
  end-IsValid i o now w q e v = v

  step-IsValid : (e : Event F) (q : TaskQueue F) → IsValid q → IsValid (step e q)
  unfolding step
  step-IsValid starts q v = start-IsValid q v
  step-IsValid stops q v = record {
    queued = v.queued;
    known = v.known;
    shaped = v.shaped;
    held = v.held;
  }
  step-IsValid (submits task_id drawn fn now) q v = submit-IsValid task_id drawn fn now q v
  step-IsValid (checks i) q v = check-IsValid i (get_elem? q.workers i) q v
  step-IsValid (expires i) q v = expire-IsValid i (get_elem? q.workers i) q v
  step-IsValid (takes i now) q v = take-IsValid i now (get_elem? q.workers i) q.queue q refl v
  step-IsValid (ends i o now) q v = end-IsValid i o now (get_elem? q.workers i) q refl v

  init-IsValid : (n : ℕ) → IsValid (init {F = F} n)
  init-IsValid n = record {
    queued = tt;
    known = λ k a h. absurd (unfold lookup in ground arith);
    shaped = tt;
    held = tt;
  }

  pub run_from-IsValid : (es : List (Event F)) (q : TaskQueue F) → IsValid q → IsValid (run es q)
  unfolding run
  run_from-IsValid [] q v = v
  run_from-IsValid (e ∷ es) q v = run_from-IsValid es (step e q) (step-IsValid e q v)

  -- Whatever is submitted, also twice under one id, and whatever the workers do when: every queued id
  -- has a result, so that no worker fails on a missing one; a pending result has neither times nor an
  -- error, a running one has a start, a completed one has a start and an end, and a failed one has a
  -- start, an end and an error; and what a busy worker runs has been started.
  pub run-IsValid : (n : ℕ) (es : List (Event F)) → IsValid (run es (init n))
  run-IsValid n es = run_from-IsValid es (init n) (init-IsValid n)
