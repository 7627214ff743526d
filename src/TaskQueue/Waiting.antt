-- ===== src/TaskQueue/Waiting.antt =====
-- What `wait_for` answers on a queue that runs on between its looks at it.
use yellowbullv.Shared.{
  ℕ, zero, suc, ◌≤◌, ◌<◌, String, ◌≡◌, refl, Option, none, some, true, false, List, [], ◌∷◌, ◌⊎◌,
  inl, inr, arith, All, Bool-cases,
}
use yellowbullv.Dict.{lookup}
use yellowbullv.TaskQueue.{
  TaskStatus, pending, running, completed, failed, TaskResult, TaskQueue, Event, Waited, answered,
  timed_out, still_waiting, is_over, is_late, object_at, get_status, init, run, poll, wait_for,
}
use yellowbullv.TaskQueue.Objects.{IsShaped, All-member}
use yellowbullv.TaskQueue.Validity.{IsValid}
use yellowbullv.TaskQueue.Runs.{run-IsValid, run_from-IsValid}

-- One of the times is later than this.
abbrev pub SomeLater : ℕ → List ℕ → Type 0
SomeLater t [] = ⊥
SomeLater t (e ∷ es) = (t < e) ⊎ SomeLater t es

-- There is no timeout, or it is 0, or the time is within it.
abbrev pub IsWithin : Option ℕ → ℕ → Type 0
IsWithin none e = Unit
IsWithin (some t) e = (t ≡ 0) ⊎ (e ≤ t)

-- An answer is the result of a task that has ended, with a start, an end and, if it has failed, an error;
-- a timeout is one that is not 0 and that some look was later than; and where the wait goes on, no look
-- was.
abbrev pub Proper : Option ℕ → List ℕ → Waited → Type 0
Proper timeout looks (answered r) = ((r.status ≡ completed) ⊎ (r.status ≡ failed)) × IsShaped r
Proper timeout looks timed_out = (t : ℕ) × (timeout ≡ some t) × (0 < t) × SomeLater t looks
Proper timeout looks still_waiting = All (IsWithin timeout) looks

over-cases : (s : TaskStatus) → is_over s ≡ true → (s ≡ completed) ⊎ (s ≡ failed)
over-cases completed h = inl refl
over-cases failed h = inr refl
over-cases pending h = absurd (ground arith)
over-cases running h = absurd (ground arith)

late-cases :
    (timeout : Option ℕ) (e : ℕ)
    → is_late timeout e ≡ true
    → (t : ℕ) × (timeout ≡ some t) × (0 < t) × (t < e)
late-cases none e h = absurd (ground arith)
late-cases (some t) e h = (t, refl, ground arith, ground arith)

IsWithin-cases : (timeout : Option ℕ) (e : ℕ) → is_late timeout e ≡ false → IsWithin timeout e
IsWithin-cases none e h = tt
IsWithin-cases (some zero) e h = inl refl
IsWithin-cases (some (suc t)) e h = inr (ground arith)

Proper-more :
    (timeout : Option ℕ) (e : ℕ) (looks : List ℕ) (w : Waited)
    → IsWithin timeout e
    → Proper timeout looks w
    → Proper timeout (e ∷ looks) w
Proper-more timeout e looks (answered r) q h = h
Proper-more timeout e looks timed_out q (t, same, pos, later) = (t, same, pos, inr later)
Proper-more timeout e looks still_waiting q h = (q, h)

poll-Proper :
    (timeout : Option ℕ) (e : ℕ) (looks : List ℕ) (seen : Option TaskResult) (w : Waited)
    → ((r : TaskResult) → seen ≡ some r → IsShaped r)
    → Proper timeout looks w
    → Proper timeout (e ∷ looks) (poll seen timeout e w)
unfolding poll
poll-Proper timeout e looks none w shaped h = elim (Bool-cases (is_late timeout e)) [
  | inl l ↦ let (t, same, pos, later) = late-cases timeout e l in rw l (t, same, pos, inl later)
  | inr l ↦ rw l (Proper-more timeout e looks w (IsWithin-cases timeout e l) h)
]
poll-Proper timeout e looks (some r) w shaped h = elim (Bool-cases (is_over r.status)) [
  | inl o ↦ rw o (over-cases r.status o, shaped r refl)
  | inr o ↦ elim (Bool-cases (is_late timeout e)) [
    | inl l ↦
        let (t, same, pos, later) = late-cases timeout e l in rw (o, l) (t, same, pos, inl later)
    | inr l ↦ rw (o, l) (Proper-more timeout e looks w (IsWithin-cases timeout e l) h)
  ]
]

object_at-IsShaped :
    (o : Option ℕ) (heap : List TaskResult) (r : TaskResult)
    → All IsShaped heap
    → object_at o heap ≡ some r
    → IsShaped r
object_at-IsShaped none heap r h e = absurd (ground arith)
object_at-IsShaped (some a) heap r h e = All-member IsShaped heap a r h e

module _ {F : Type 0} where
  -- What `wait_for` sees of a task: between two looks at the queue some events happen, and with each look
  -- comes the time since the wait began.
  unfoldable pub seen_by :
      String → TaskQueue F → List (List (Event F) × ℕ) → List (Option TaskResult × ℕ)
  seen_by id q [] = []
  seen_by id q ((es, elapsed) ∷ looks) =
      (get_status id (run es q), elapsed) ∷ seen_by id (run es q) looks

  abbrev pub times : List (List (Event F) × ℕ) → List ℕ
  times [] = []
  times ((es, elapsed) ∷ looks) = elapsed ∷ times looks

  wait_from-Proper :
      (timeout : Option ℕ) (id : String) (looks : List (List (Event F) × ℕ)) (q : TaskQueue F)
      → IsValid q
      → Proper timeout (times looks) (wait_for timeout (seen_by id q looks))
  unfolding wait_for seen_by get_status
  wait_from-Proper timeout id [] q v = tt
  wait_from-Proper timeout id ((es, e) ∷ looks) q v =
      let later = run_from-IsValid es q v in
      poll-Proper timeout e (times looks) (get_status id (run es q))
        (wait_for timeout (seen_by id (run es q) looks))
        (λ r seen.
          object_at-IsShaped (lookup id (run es q).results) (run es q).heap r later.shaped seen)
        (wait_from-Proper timeout id looks (run es q) later)

  -- On a queue that has run in any way and runs on in any way between the looks that `wait_for` takes at
  -- it: an answer is the result of a task that has completed or failed, with a start and an end, and an
  -- error if it has failed; a timeout is reported only where one other than 0 is given and the time at
  -- some look was beyond it; and while the wait goes on, no look was beyond a timeout other than 0.
  pub wait_for-Proper :
      (timeout : Option ℕ) (id : String) (n : ℕ) (before : List (Event F))
      (looks : List (List (Event F) × ℕ))
      → Proper timeout (times looks) (wait_for timeout (seen_by id (run before (init n)) looks))
  wait_for-Proper timeout id n before looks =
      wait_from-Proper timeout id looks (run before (init n)) (run-IsValid n before)
