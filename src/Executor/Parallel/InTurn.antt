-- ===== src/Executor/Parallel/InTurn.antt =====
-- core/tool_executor.py: the two modes of `execute_batch` against each other. A parallel batch whose
-- calls move one after the other is compared with a serial one.
use yellowbullv.Shared.{
  ℕ, zero, suc, ◌≡◌, refl, sym, ap, ◌∙◌, Option, none, some, List, [], ◌∷◌, ◌++◌, map, arith, Bool,
  true, false,
}
use yellowbullv.Executor.{
  Runtime, Executor, ToolCallRequest, ExecutionResult, Cache, Single, done, escaped, execute_single,
}
use yellowbullv.Executor.Batch.{Batch, completed, aborted, also, serial}
use yellowbullv.Executor.Parallel.{
  Phase, ready, finished, Task, step_at, tasks_of, gathered, also_some, resolve_single,
}
use yellowbullv.Executor.Parallel.Driven.{outcome_of, event_at, drive, parallel}
use yellowbullv.Executor.Parallel.Moves.{turns, one, moves, moves-execute_single}

repeat : ℕ → ℕ → List ℕ
repeat zero i = []
repeat (suc k) i = i ∷ repeat k i

-- Each call gets `k` moves before the next one gets any.
pub in_turn : ℕ → List ToolCallRequest → List ℕ
unfolding repeat
in_turn k [] = []
in_turn k (q ∷ qs) = repeat k 0 ++ map suc (in_turn k qs)

abbrev pub is_completed : Batch → Bool
is_completed (completed rs) = true
is_completed (aborted e) = false

is_completed-also : (r : ExecutionResult) (b : Batch) → is_completed (also r b) ≡ is_completed b
is_completed-also r (completed rs) = refl
is_completed-also r (aborted e) = refl

outcome_of-also_some :
    (r : ExecutionResult) (o : Option (List ExecutionResult))
    → outcome_of (also_some r o) ≡ also r (outcome_of o)
outcome_of-also_some r none = refl
outcome_of-also_some r (some rs) = refl

module _ (rt : Runtime) (ex : Executor) where
  open rt use {World}

  abbrev Driven : Type 0
  Driven = List Task × Cache × World

  drive-append :
      (is js : List ℕ) (ts : List Task) (cache : Cache) (w : World)
      → drive rt ex (is ++ js) ts cache w
        ≡ drive rt ex js
            (drive rt ex is ts cache w).0
            (drive rt ex is ts cache w).1
            (drive rt ex is ts cache w).2
  unfolding drive
  drive-append [] js ts cache w = refl
  drive-append (i ∷ is) js ts cache w = drive-append is js _ _ _

  drive-repeat :
      (k : ℕ) (req : ToolCallRequest) (p : Phase) (ts : List Task) (cache : Cache) (w : World)
      → drive rt ex (repeat k 0) ((req, p) ∷ ts) cache w ≡ (
        (req, (moves rt ex req k (p, cache, w)).0) ∷ ts,
        (moves rt ex req k (p, cache, w)).1,
        (moves rt ex req k (p, cache, w)).2,
      )
  unfolding drive repeat moves one event_at step_at
  drive-repeat zero req p ts cache w = refl
  drive-repeat (suc k) req p ts cache w = drive-repeat k req _ ts _ _

  drive-suc :
      (is : List ℕ) (t : Task) (ts : List Task) (cache : Cache) (w : World)
      → drive rt ex (map suc is) (t ∷ ts) cache w ≡ (
        t ∷ (drive rt ex is ts cache w).0,
        (drive rt ex is ts cache w).1,
        (drive rt ex is ts cache w).2,
      )
  unfolding drive event_at step_at
  drive-suc [] t ts cache w = refl
  drive-suc (i ∷ is) t ts cache w = drive-suc is t _ _ _

  -- The first call runs to its end, and the others follow.
  drive-in_turn :
      (q : ToolCallRequest) (qs : List ToolCallRequest) (cache : Cache) (w : World)
      → drive rt ex (in_turn (turns rt ex) (q ∷ qs)) (tasks_of (q ∷ qs)) cache w ≡ (
        (q, finished (execute_single rt ex q cache w).0)
            ∷ (drive rt ex
                (in_turn (turns rt ex) qs)
                (tasks_of qs)
                (execute_single rt ex q cache w).1
                (execute_single rt ex q cache w).2).0,
        (drive rt ex
            (in_turn (turns rt ex) qs)
            (tasks_of qs)
            (execute_single rt ex q cache w).1
            (execute_single rt ex q cache w).2).1,
        (drive rt ex
            (in_turn (turns rt ex) qs)
            (tasks_of qs)
            (execute_single rt ex q cache w).1
            (execute_single rt ex q cache w).2).2,
      )
  unfolding in_turn
  drive-in_turn q qs cache w =
      drive-append (repeat (turns rt ex) 0) (map suc (in_turn (turns rt ex) qs)) (tasks_of (q ∷ qs))
        cache w
      ∙ ap (λ d. drive rt ex (map suc (in_turn (turns rt ex) qs)) d.0 d.1 d.2)
          (drive-repeat (turns rt ex) q ready (tasks_of qs) cache w
            ∙ ap (λ s. ((q, s.0) ∷ tasks_of qs, s.1, s.2)) (moves-execute_single rt ex q cache w))
      ∙ drive-suc (in_turn (turns rt ex) qs) _ (tasks_of qs) _ _

  -- The serial batch from one call's answer on.
  abbrev serial_after :
      ToolCallRequest → Single → Batch × Cache × World → Cache × World → Batch × Cache × World
  serial_after q a rest kept = elim a [
    | escaped e ↦ (aborted e, kept.0, kept.1)
    | done r ↦ (also r rest.0, rest.1, rest.2)
  ]

  go-parallel :
      (q : ToolCallRequest) (a : Single) (d : Driven) (rest : Batch × Cache × World)
      (kept : Cache × World)
      → is_completed (serial_after q a rest kept).0 ≡ true
      → (is_completed rest.0 ≡ true → (outcome_of (gathered d.0), d.1, d.2) ≡ rest)
      → (outcome_of (gathered ((q, finished a) ∷ d.0)), d.1, d.2) ≡ serial_after q a rest kept
  unfolding gathered resolve_single
  go-parallel q (escaped e) d rest kept h again = absurd (ground arith)
  go-parallel q (done r) d rest kept h again =
      ap (λ o. (o, d.1, d.2)) (outcome_of-also_some r (gathered d.0))
      ∙ ap (λ z. (also r z.0, z.1, z.2)) (again (sym (is_completed-also r rest.0) ∙ h))

  -- Where the serial mode completes a batch, the parallel mode gives the same results and leaves the
  -- same cache and the same world, under the schedule in which each call makes all its moves (one for
  -- its start, one for its first attempt and two for each retry that is allowed) before the next call
  -- starts.
  pub parallel-serial :
      (reqs : List ToolCallRequest) (cache : Cache) (w : World)
      → is_completed (serial rt ex reqs cache w).0 ≡ true
      → parallel rt ex (in_turn (turns rt ex) reqs) reqs cache w ≡ serial rt ex reqs cache w
  unfolding parallel serial gathered in_turn drive
  parallel-serial [] cache w h = refl
  parallel-serial (q ∷ qs) cache w h =
      let one_call = execute_single rt ex q cache w in
      ap (λ d. (outcome_of (gathered d.0), d.1, d.2)) (drive-in_turn q qs cache w)
      ∙ go-parallel q one_call.0
          (drive rt ex (in_turn (turns rt ex) qs) (tasks_of qs) one_call.1 one_call.2)
          (serial rt ex qs one_call.1 one_call.2) (one_call.1, one_call.2) h
          (parallel-serial qs one_call.1 one_call.2)
