-- ===== src/TaskQueue/Tests.antt =====
-- The task queue on concrete runs; a submission carries a number.
use yellowbullv.Shared.{ℕ, ◌≡◌, refl, none, some, List, [], ◌∷◌}
use yellowbullv.Shared.Json.{null}
use yellowbullv.Dict.{lookup, insert}
use yellowbullv.TaskQueue.{
  running, TaskResult, raised, update_at, Event, starts, submits, checks, takes, ends, init, start,
  submit, get_status, check_at, take_at, end_at, step, run, still_waiting, wait_for, poll,
}
use yellowbullv.TaskQueue.Validity.{IsValid}
use yellowbullv.TaskQueue.Runs.{run-IsValid}
use yellowbullv.TaskQueue.Waiting.{Proper, times, seen_by, wait_for-Proper}

-- Two submissions under one id, of which the worker has finished the first and taken the second.
abbrev twice : List (Event ℕ)
twice =
    submits (some "a") "" 1 0
    ∷ submits (some "a") "" 2 1
    ∷ starts
    ∷ checks 0
    ∷ takes 0 2
    ∷ ends 0 (raised "boom") 3
    ∷ checks 0
    ∷ takes 0 4
    ∷ []

run-IsValid_example : IsValid (run twice (init 1))
run-IsValid_example = run-IsValid 1 twice

-- Both run on the second one's object: it has failed, and runs again with the error of the first.
abbrev reopened : TaskResult
reopened = record {
  task_id = "a";
  status = running;
  result = null;
  error = some "boom";
  created_at = 1;
  started_at = some 4;
  completed_at = some 3;
}

twice-reopened : get_status "a" (run twice (init 1)) ≡ some reopened
unfolding get_status run step submit start check_at take_at end_at update_at lookup insert
twice-reopened = refl

-- The wait looks at the queue while the second run goes on, and after it has ended.
abbrev looks : List (List (Event ℕ) × ℕ)
looks = ([], 1) ∷ (ends 0 (raised "again") 5 ∷ [], 2) ∷ []

wait_for-Proper_example :
    Proper (some 5) (times looks) (wait_for (some 5) (seen_by "a" (run twice (init 1)) looks))
wait_for-Proper_example = wait_for-Proper (some 5) "a" 1 twice looks

-- A timeout of 0 never runs out.
zero_waits : wait_for (some 0) ((none, 100) ∷ []) ≡ still_waiting
unfolding wait_for poll
zero_waits = refl
