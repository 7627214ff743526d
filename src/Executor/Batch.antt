-- ===== src/Executor/Batch.antt =====
-- core/tool_executor.py, `execute_batch` in its serial mode, and the summary of a batch.
use yellowbullv.Shared.{
  ℕ, String, ◌≡◌, Bool, true, List, [], ◌∷◌, arith, if◌then◌else◌, all, not, ◌&&◌, is_nonempty,
}
use yellowbullv.Executor.{
  Runtime, Executor, ToolCallRequest, ExecutionResult, Cache, Single, done, escaped, succeeded,
  execute_single,
}
use yellowbullv.Executor.Caching.{IsGood, IsAnswer, Answers, execute_single-InOrder}

pub record BatchExecutionResult : Type 0 where
  pub results : List ExecutionResult
  pub total_duration_ms : ℕ

unfoldable pub all_success : BatchExecutionResult → Bool
all_success b = if is_nonempty b.results then all (λ r. succeeded r.status) b.results else true

unfoldable pub any_failed : BatchExecutionResult → Bool
unfolding all_success
any_failed b = not (all_success b) && is_nonempty b.results

-- The outcome of a batch: its results, or the exception that left it.
pub data Batch : Type 0 where
  completed : List ExecutionResult → Batch
  aborted : String → Batch

abbrev pub also : ExecutionResult → Batch → Batch
also r (completed rs) = completed (r ∷ rs)
also r (aborted e) = aborted e

module _ (rt : Runtime) (ex : Executor) where
  open rt use {World, clock}

  -- The loop over the requests. An exception that leaves one of them ends it.
  unfoldable pub serial : List ToolCallRequest → Cache → World → Batch × Cache × World
  serial [] cache w = (completed [], cache, w)
  serial (req ∷ reqs) cache w =
      let (answer, cache', w') = execute_single rt ex req cache w in
      let rest = serial reqs cache' w' in
      elim answer [ escaped e ↦ (aborted e, cache', w') | done r ↦ (also r rest.0, rest.1, rest.2) ]

  -- The results answer the requests one to one and in their order.
  abbrev pub AnswerAll : List ToolCallRequest → List ExecutionResult → Type 0
  AnswerAll [] [] = Unit
  AnswerAll [] (r ∷ rs) = ⊥
  AnswerAll (q ∷ qs) [] = ⊥
  AnswerAll (q ∷ qs) (r ∷ rs) = IsAnswer rt ex q r × AnswerAll qs rs

  abbrev pub Completes : List ToolCallRequest → Batch → Type 0
  Completes reqs (completed rs) = AnswerAll reqs rs
  Completes reqs (aborted e) = Unit

  Completes-also :
      (q : ToolCallRequest) (qs : List ToolCallRequest) (r : ExecutionResult) (b : Batch)
      → IsAnswer rt ex q r
      → Completes qs b
      → Completes (q ∷ qs) (also r b)
  Completes-also q qs r (completed rs) h c = (h, c)
  Completes-also q qs r (aborted e) h c = tt

  -- A serial batch from a cache of successes that is not left by an exception has one result for
  -- each request, in the order of the requests, each in order for its request, and leaves a cache
  -- of successes.
  pub serial-Completes :
      (reqs : List ToolCallRequest) (cache : Cache) (w : World)
      → IsGood cache
      → Completes reqs (serial reqs cache w).0 × IsGood (serial reqs cache w).1
  unfolding serial
  serial-Completes [] cache w good = (tt, good)
  serial-Completes (req ∷ reqs) cache w good =
      cases (execute_single rt ex req cache w).0 (execute_single-InOrder rt ex req cache w good) (
        serial-Completes reqs (execute_single rt ex req cache w).1
          (execute_single rt ex req cache w).2)
    where
      rest : Batch × Cache × World
      rest = serial reqs (execute_single rt ex req cache w).1 (execute_single rt ex req cache w).2

      conclude : Single → Batch × Cache × World
      conclude answer = elim answer [
        | escaped e ↦
            (aborted e, (execute_single rt ex req cache w).1, (execute_single rt ex req cache w).2)
        | done r ↦ (also r rest.0, rest.1, rest.2)
      ]

      cases :
          (answer : Single)
          → Answers (IsAnswer rt ex req) answer × IsGood (execute_single rt ex req cache w).1
          → (IsGood (execute_single rt ex req cache w).1 → Completes reqs rest.0 × IsGood rest.1)
          → Completes (req ∷ reqs) (conclude answer).0 × IsGood (conclude answer).1
      cases (escaped e) (a, g) ih = (tt, g)
      cases (done r) (a, g) ih = (Completes-also req reqs r rest.0 a (ih g).0, (ih g).1)

-- A batch has a failure exactly where not all of its results, of which there may be none, are
-- successes.
pub any_failed-all :
    (b : BatchExecutionResult) → any_failed b ≡ not (all (λ r. succeeded r.status) b.results)
unfolding any_failed all_success
any_failed-all b = cases b.results
  where
    cases :
        (rs : List ExecutionResult)
        → (not (if is_nonempty rs then all (λ r. succeeded r.status) rs else true)
            && is_nonempty rs)
          ≡ not (all (λ r. succeeded r.status) rs)
    cases [] = ground arith
    cases (r ∷ rs) = ground arith
