-- ===== src/TaskQueue/Validity.antt =====
-- When a task queue is valid, and its operations outside the workers' tasks.
use yellowbullv.Shared.{
  ℕ, zero, suc, ◌<◌, String, ◌≡◌, refl, Option, some, Bool, true, false, List, [], ◌∷◌, ◌++◌, arith,
  length, is_some, All, All-append, length-append, Bool-cases, inl, inr, str_eq, str_eq_iff,
  if◌then◌else◌,
}
use yellowbullv.Dict.{Dict, lookup, insert}
use yellowbullv.Dict.Laws.{lookup-insert}
use yellowbullv.TaskQueue.{
  TaskResult, fresh_result, Worker, checking, waiting, gone, busy, update_at, workers_of, TaskQueue,
  start, id_of, submit, check_at, expire_at,
}
use yellowbullv.TaskQueue.Objects.{
  IsShaped, All-update_at, All-map, is_started, is_started-append, KeepsStart, is_started-update_at,
}

-- The task of a busy worker has been started.
abbrev pub Holds : List TaskResult → Worker → Type 0
Holds heap (busy a) = is_started heap a ≡ true
Holds heap checking = Unit
Holds heap waiting = Unit
Holds heap gone = Unit

pub workers_of-Holds : (heap : List TaskResult) (n : ℕ) → All (Holds heap) (workers_of n)
workers_of-Holds heap zero = tt
workers_of-Holds heap (suc n) = (tt, workers_of-Holds heap n)

pub Holds-append :
    (heap : List TaskResult) (r : TaskResult) (w : Worker) → Holds heap w → Holds (heap ++ r ∷ []) w
Holds-append heap r (busy a) h = is_started-append heap r a h
Holds-append heap r checking h = tt
Holds-append heap r waiting h = tt
Holds-append heap r gone h = tt

pub Holds-update_at :
    (a : ℕ) (f : TaskResult → TaskResult) (heap : List TaskResult)
    → KeepsStart f
    → (w : Worker) → Holds heap w
    → Holds (update_at a f heap) w
Holds-update_at a f heap keeps (busy b) h = is_started-update_at a b f heap keeps h
Holds-update_at a f heap keeps checking h = tt
Holds-update_at a f heap keeps waiting h = tt
Holds-update_at a f heap keeps gone h = tt

-- a worker put in another's place
pub update_at-Holds :
    (heap : List TaskResult) (i : ℕ) (w : Worker) (ws : List Worker)
    → Holds heap w
    → All (Holds heap) ws
    → All (Holds heap) (update_at i (λ v. w) ws)
update_at-Holds heap i w ws h a = All-update_at i (λ v. w) ws (λ x e p. h) a

module _ {F : Type 0} where
  abbrev pub Known : Dict ℕ → String × F → Type 0
  Known results e = is_some (lookup e.0 results) ≡ true

  -- Every queued id has a result, every result is an object on the heap, the objects are in order,
  -- and the tasks of the busy workers have been started.
  pub record IsValid (q : TaskQueue F) : Type 0 where
    pub queued : All (Known q.results) q.queue
    pub known : (k : String) (a : ℕ) → lookup k q.results ≡ some a → a < length q.heap
    pub shaped : All IsShaped q.heap
    pub held : All (Holds q.heap) q.workers

  pub start-IsValid : (q : TaskQueue F) → IsValid q → IsValid (start q)
  unfolding start
  start-IsValid q v = cases q.is_running
    where
      cases :
          (b : Bool)
          → IsValid (
              if b
              then q
              else record q { is_running = true; workers = q.workers ++ workers_of q.max_workers })
      cases true = v
      cases false = record {
        queued = v.queued;
        known = v.known;
        shaped = v.shaped;
        held =
            All-append (Holds q.heap) q.workers (workers_of q.max_workers) v.held
              (workers_of-Holds q.heap q.max_workers);
      }

  pub submit-IsValid :
      (task_id : Option String) (drawn : String) (fn : F) (now : ℕ) (q : TaskQueue F)
      → IsValid q
      → IsValid (submit task_id drawn fn now q).1
  unfolding submit
  submit-IsValid task_id drawn fn now q v = record {
    queued =
        All-append (Known (insert tid n q.results)) q.queue ((tid, fn) ∷ [])
          (All-map q.queue (λ e p. kept e.0 p) v.queued) (here, tt);
    known = λ k a h. bounded k a h;
    shaped = All-append IsShaped q.heap (fresh_result tid now ∷ []) v.shaped (refl, tt);
    held = All-map q.workers (Holds-append q.heap (fresh_result tid now)) v.held;
  }
    where
      tid : String
      tid = id_of task_id drawn

      n : ℕ
      n = length q.heap

      kept :
          (k : String)
          → is_some (lookup k q.results) ≡ true
          → is_some (lookup k (insert tid n q.results)) ≡ true
      kept k p = ground (arith, lookup-insert tid k n q.results)

      here : is_some (lookup tid (insert tid n q.results)) ≡ true
      here = ground (arith, lookup-insert tid tid n q.results, str_eq_iff tid tid)

      bounded :
          (k : String) (a : ℕ)
          → lookup k (insert tid n q.results) ≡ some a
          → a < length (q.heap ++ fresh_result tid now ∷ [])
      bounded k a h =
          let size = length-append q.heap (fresh_result tid now ∷ []) in
          elim (Bool-cases (str_eq tid k)) [
            | inl e ↦ ground (arith, lookup-insert tid k n q.results, size)
            | inr e ↦
                (let old = v.known k a (ground (arith, lookup-insert tid k n q.results)) in
                  omega (arith, size, old))
          ]

  pub check-IsValid :
      (i : ℕ) (w : Option Worker) (q : TaskQueue F) → IsValid q → IsValid (check_at i w q)
  unfolding check_at
  check-IsValid i (some checking) q v = record {
    queued = v.queued;
    known = v.known;
    shaped = v.shaped;
    held =
        update_at-Holds q.heap i (if q.is_running then waiting else gone) q.workers
          (cases q.is_running) v.held;
  }
    where
      cases : (b : Bool) → Holds q.heap (if b then waiting else gone)
      cases true = tt
      cases false = tt
  check-IsValid i w q v = v

  pub expire-IsValid :
      (i : ℕ) (w : Option Worker) (q : TaskQueue F) → IsValid q → IsValid (expire_at i w q)
  unfolding expire_at
  expire-IsValid i (some waiting) q v = record {
    queued = v.queued;
    known = v.known;
    shaped = v.shaped;
    held = update_at-Holds q.heap i checking q.workers tt v.held;
  }
  expire-IsValid i w q v = v
