-- ===== src/TaskQueue.antt =====
-- core/task_queue/queue.py. The event loop switches only where a worker awaits, so a worker stands at
-- one of its awaits and an event moves it. A `TaskResult` is an object on a heap: the dictionary and
-- the worker that runs the task refer to it by its address. `F` is what a submission carries, the
-- function with its arguments.
pub mod Objects
pub mod Validity
pub mod Runs
pub mod Waiting
mod Tests
use yellowbullv.Shared.{
  ℕ, zero, suc, String, Option, none, some, Bool, true, false, List, [], ◌∷◌, ◌++◌, ltb, ◌+◌, ◌&&◌,
  ◌==◌, not, length, get_elem?, or_empty, str_or, if◌then◌else◌,
}
use yellowbullv.Shared.Json.{Json, null}
use yellowbullv.Dict.{Dict, lookup, insert}

pub data TaskStatus : Type 0 where
  pending running completed failed : TaskStatus

pub record TaskResult : Type 0 where
  pub task_id : String
  pub status : TaskStatus
  pub result : Json
  pub error : Option String
  pub created_at : ℕ
  pub started_at : Option ℕ
  pub completed_at : Option ℕ

-- `TaskResult(task_id=tid, status=TaskStatus.PENDING)`
abbrev pub fresh_result : String → ℕ → TaskResult
fresh_result tid now = record {
  task_id = tid;
  status = pending;
  result = null;
  error = none;
  created_at = now;
  started_at = none;
  completed_at = none;
}

-- A worker is about to test `self._running`, awaits the queue, runs the task of the result at an
-- address, or has left its loop.
pub data Worker : Type 0 where
  checking waiting gone : Worker
  busy : ℕ → Worker

-- How a task ends; a cancellation is not caught by `except Exception`.
pub data Outcome : Type 0 where
  returned : Json → Outcome
  raised : String → Outcome
  cancelled : Outcome

-- The object at an address, changed.
unfoldable pub update_at {ℓ} : {A : Type ℓ} → ℕ → (A → A) → List A → List A
update_at i f [] = []
update_at zero f (x ∷ xs) = f x ∷ xs
update_at (suc i) f (x ∷ xs) = x ∷ update_at i f xs

abbrev pub mark_running : ℕ → TaskResult → TaskResult
mark_running now r = record r { status = running; started_at = some now }

abbrev pub mark_ended : Outcome → ℕ → TaskResult → TaskResult
mark_ended (returned v) now r = record r { result = v; status = completed; completed_at = some now }
mark_ended (raised e) now r = record r { status = failed; error = some e; completed_at = some now }
mark_ended cancelled now r = record r { completed_at = some now }

abbrev pub worker_after : Outcome → Worker
worker_after (returned v) = checking
worker_after (raised e) = checking
worker_after cancelled = gone

abbrev pub workers_of : ℕ → List Worker
workers_of zero = []
workers_of (suc n) = checking ∷ workers_of n

pub record TaskQueue (F : Type 0) : Type 0 where
  pub max_workers : ℕ
  pub heap : List TaskResult
  pub results : Dict ℕ
  pub queue : List (String × F)
  pub workers : List Worker
  pub is_running : Bool

pub data Event (F : Type 0) : Type 0 where
  starts stops : Event F
  submits : (task_id : Option String) (drawn : String) (fn : F) (now : ℕ) → Event F
  checks expires : (worker : ℕ) → Event F
  takes : (worker now : ℕ) → Event F
  ends : (worker : ℕ) → Outcome → (now : ℕ) → Event F

-- `task_id or str(uuid.uuid4())`, with the id that is drawn
abbrev pub id_of : Option String → String → String
id_of task_id drawn = str_or (or_empty task_id) drawn

abbrev pub object_at : Option ℕ → List TaskResult → Option TaskResult
object_at none heap = none
object_at (some a) heap = get_elem? heap a

module _ {F : Type 0} where
  abbrev pub init : ℕ → TaskQueue F
  init n = record {
    max_workers = n;
    heap = [];
    results = [];
    queue = [];
    workers = [];
    is_running = false;
  }

  unfoldable pub start : TaskQueue F → TaskQueue F
  start q =
      if q.is_running
      then q
      else record q { is_running = true; workers = q.workers ++ workers_of q.max_workers }

  abbrev pub stop : TaskQueue F → TaskQueue F
  stop q = record q { is_running = false }

  unfoldable pub submit : Option String → String → F → ℕ → TaskQueue F → String × TaskQueue F
  submit task_id drawn fn now q =
      let tid = id_of task_id drawn in
      (
        tid,
        record q {
          heap = q.heap ++ fresh_result tid now ∷ [];
          results = insert tid (length q.heap) q.results;
          queue = q.queue ++ (tid, fn) ∷ [];
        },
      )

  unfoldable pub get_status : String → TaskQueue F → Option TaskResult
  get_status tid q = object_at (lookup tid q.results) q.heap

  abbrev pub put_worker : ℕ → Worker → TaskQueue F → TaskQueue F
  put_worker i w q = record q { workers = update_at i (λ v. w) q.workers }

  -- `while self._running`
  unfoldable pub check_at : ℕ → Option Worker → TaskQueue F → TaskQueue F
  check_at i (some checking) q = put_worker i (if q.is_running then waiting else gone) q
  check_at i w q = q

  -- `self._results[tid]`: a missing id is a `KeyError`, which ends the worker.
  abbrev pub begin_task : ℕ → ℕ → Option ℕ → List (String × F) → TaskQueue F → TaskQueue F
  begin_task i now none rest q = record q {
    queue = rest;
    workers = update_at i (λ v. gone) q.workers;
  }
  begin_task i now (some a) rest q = record q {
    queue = rest;
    heap = update_at a (mark_running now) q.heap;
    workers = update_at i (λ v. busy a) q.workers;
  }

  unfoldable pub take_at : ℕ → ℕ → Option Worker → List (String × F) → TaskQueue F → TaskQueue F
  take_at i now (some waiting) ((tid, fn) ∷ rest) q = begin_task i now (lookup tid q.results) rest q
  take_at i now w queue q = q

  -- the timeout of `queue.get()`
  unfoldable pub expire_at : ℕ → Option Worker → TaskQueue F → TaskQueue F
  expire_at i (some waiting) q = put_worker i checking q
  expire_at i w q = q

  unfoldable pub end_at : ℕ → Outcome → ℕ → Option Worker → TaskQueue F → TaskQueue F
  end_at i o now (some (busy a)) q = record q {
    heap = update_at a (mark_ended o now) q.heap;
    workers = update_at i (λ v. worker_after o) q.workers;
  }
  end_at i o now w q = q

  -- An event that does not fit the worker leaves all as it is.
  unfoldable pub step : Event F → TaskQueue F → TaskQueue F
  step starts q = start q
  step stops q = stop q
  step (submits task_id drawn fn now) q = (submit task_id drawn fn now q).1
  step (checks i) q = check_at i (get_elem? q.workers i) q
  step (expires i) q = expire_at i (get_elem? q.workers i) q
  step (takes i now) q = take_at i now (get_elem? q.workers i) q.queue q
  step (ends i o now) q = end_at i o now (get_elem? q.workers i) q

  unfoldable pub run : List (Event F) → TaskQueue F → TaskQueue F
  run [] q = q
  run (e ∷ es) q = run es (step e q)

-- `status in (COMPLETED, FAILED)`
abbrev pub is_over : TaskStatus → Bool
is_over completed = true
is_over failed = true
is_over _ = false

-- How `wait_for` ends, or that it has not ended.
pub data Waited : Type 0 where
  answered : TaskResult → Waited
  timed_out still_waiting : Waited

-- `if timeout and elapsed > timeout`
abbrev pub is_late : Option ℕ → ℕ → Bool
is_late none elapsed = false
is_late (some t) elapsed = not (t == 0) && ltb t elapsed

unfoldable pub poll : Option TaskResult → Option ℕ → ℕ → Waited → Waited
poll none timeout elapsed later = if is_late timeout elapsed then timed_out else later
poll (some r) timeout elapsed later =
    if is_over r.status then answered r else if is_late timeout elapsed then timed_out else later

-- `wait_for`, over what each of its rounds sees: the status, and the time since it began.
unfoldable pub wait_for : Option ℕ → List (Option TaskResult × ℕ) → Waited
unfolding poll
wait_for timeout [] = still_waiting
wait_for timeout ((seen, elapsed) ∷ rounds) = poll seen timeout elapsed (wait_for timeout rounds)
