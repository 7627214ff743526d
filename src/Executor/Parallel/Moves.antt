-- ===== src/Executor/Parallel/Moves.antt =====
-- core/tool_executor.py: a call that moves by itself, against the loop of `_execute_single`.
use yellowbullv.Shared.{
  ℕ, zero, suc, ◌+◌, String, ◌≡◌, refl, Option, none, some, arith, true, if◌then◌else◌, inl, inr,
  ltb, Option-cases,
}
use yellowbullv.Dict.{lookup}
use yellowbullv.Tools.{Tool, find_tool}
use yellowbullv.Executor.{
  Runtime, Executor, ToolCallRequest, ExecutionResult, Cache, Single, back_off, attempts,
  execute_single, cache_key,
}
use yellowbullv.Executor.Retries.{
  attempt, message, Attempt-cases, loop-returned, loop-cancelled, loop-Retried,
}
use yellowbullv.Executor.Parallel.{
  Phase, ready, running, sleeping, finished, begin, retry, ended, step,
}
use yellowbullv.Executor.Parallel.Refines.{
  ended-Retried, retry-over, retry-more, begin-found, execute_single-found, back_off-zero,
}
use yellowbullv.Executor.Parallel.Driven.{run_found, next_event}

-- The moves that a call needs from its first attempt to its end, with `left` retries.
pub needed : ℕ → ℕ
needed zero = 1
needed (suc left) = suc (suc (needed left))

-- The moves after the first.
later : ℕ → ℕ
later zero = 0
later (suc left) = suc (needed left)

needed-suc : (left : ℕ) → needed left ≡ suc (later left)
unfolding needed later
needed-suc zero = refl
needed-suc (suc left) = refl

positive : (n : ℕ) → ltb 0 (suc n) ≡ true
positive n = ground arith

module _ (rt : Runtime) (ex : Executor) where
  open rt use {World, clock}

  abbrev pub State : Type 0
  State = Phase × Cache × World

  -- As many moves as a call can need.
  abbrev pub turns : ℕ
  turns = suc (needed ex.max_retries)

  module _ (req : ToolCallRequest) where
    -- One move of a call by itself, and some of them.
    unfoldable pub one : State → State
    one (p, cache, w) =
        let (e, w') = next_event rt ex req p w in
        let (p', cache') = step rt ex req p e cache in (p', cache', w')

    unfoldable pub moves : ℕ → State → State
    moves zero s = s
    moves (suc k) s = moves k (one s)

    moves-finished :
        (k : ℕ) (s : Single) (cache : Cache) (w : World)
        → moves k (finished s, cache, w) ≡ (finished s, cache, w)
    unfolding moves one next_event step
    moves-finished zero s cache w = refl
    moves-finished (suc k) s cache w = moves-finished k s cache w

    abbrev pub shown : Single × Cache × World → State
    shown result = (finished result.0, result.1, result.2)

    module _ (tool : Tool) (found : find_tool req.tool_name ex.registry ≡ some tool) where
      abbrev before : ℕ → World → World
      before n w = back_off rt ex req tool n w

      one-running :
          (n start : ℕ) (cache : Cache) (w : World)
          → one (running n start, cache, before n w) ≡ (
            (ended rt ex req
                (attempt rt ex req tool n w).0
                n
                start
                (clock (attempt rt ex req tool n w).1)
                cache).0,
            (ended rt ex req
                (attempt rt ex req tool n w).0
                n
                start
                (clock (attempt rt ex req tool n w).1)
                cache).1,
            (attempt rt ex req tool n w).1,
          )
      unfolding one next_event run_found step
      one-running n start cache w = rw (found, run_found) refl

      one-sleeping :
          (n : ℕ) (cache : Cache) (w : World)
          → one (sleeping (suc n), cache, w)
            ≡ (running (suc n) (clock (before (suc n) w)), cache, before (suc n) w)
      unfolding one next_event step back_off
      one-sleeping n cache w = rw (positive n) refl

      -- One attempt, given what follows if it is to be tried again.
      moves-attempt :
          (left n : ℕ) (last : String) (cache : Cache) (w : World)
          → ((m : String)
              → moves (later left) (retry rt ex req n m, cache, (attempt rt ex req tool n w).1)
                ≡ shown
                    (attempts rt ex req tool left (suc n) m cache (attempt rt ex req tool n w).1))
          → moves (needed left) (running n (clock (before n w)), cache, before n w)
            ≡ shown (attempts rt ex req tool (suc left) n last cache w)
      unfolding moves ended
      moves-attempt left n last cache w again =
          elim (Attempt-cases rt ex req tool (attempt rt ex req tool n w).0) [
            | inl (r, e) ↦
                rw
                  (
                    needed-suc left,
                    moves,
                    one-running n (clock (before n w)) cache w,
                    loop-returned rt ex req tool left n last cache w r e,
                    e,
                    ended,
                  )
                  (moves-finished (later left) _ _ _)
            | inr (inl (x, e)) ↦
                rw
                  (
                    needed-suc left,
                    moves,
                    one-running n (clock (before n w)) cache w,
                    loop-cancelled rt ex req tool left n last cache w x e,
                    e,
                    ended,
                  )
                  (moves-finished (later left) _ _ _)
            | inr (inr f) ↦
                rw
                  (
                    needed-suc left,
                    moves,
                    one-running n (clock (before n w)) cache w,
                    loop-Retried rt ex req tool left n last cache w f,
                    ended-Retried rt ex req tool found _ n _ _ cache f,
                  )
                  (again (message rt ex req tool (attempt rt ex req tool n w).0))
          ]

      -- The attempts of a call that is left to itself are those of the retry loop.
      moves-attempts :
          (left n : ℕ) (last : String) (cache : Cache) (w : World)
          → n + left ≡ ex.max_retries
          → moves (needed left) (running n (clock (before n w)), cache, before n w)
            ≡ shown (attempts rt ex req tool (suc left) n last cache w)
      unfolding moves later
      moves-attempts zero n last cache w h =
          moves-attempt zero n last cache w
            (λ m. rw (retry-over rt ex req tool found n m h) (unfold attempts in refl))
      moves-attempts (suc left) n last cache w h = moves-attempt (suc left) n last cache w (λ m.
          rw
            (
              retry-more rt ex req tool found n left m h,
              later,
              moves,
              one-sleeping n cache (attempt rt ex req tool n w).1,
            )
            (moves-attempts left (suc n) m cache (attempt rt ex req tool n w).1 (omega arith)))

    abbrev cached : Cache → Option ExecutionResult
    cached cache = if ex.enable_cache then lookup (cache_key rt req) cache else none

    one-ready :
        (cache : Cache) (w : World)
        → one (ready, cache, w) ≡ (begin rt ex req (clock w) cache, cache, w)
    unfolding one next_event step
    one-ready cache w = refl

    -- A call of a parallel batch that is left to itself, each move taking the clock, the sleep or the run
    -- of the tool from the world, is over after at most `2 * max_retries + 2` moves, and then its answer,
    -- the cache and the world are those of `_execute_single`.
    pub moves-execute_single :
        (cache : Cache) (w : World)
        → moves turns (ready, cache, w) ≡ shown (execute_single rt ex req cache w)
    unfolding moves begin needed execute_single
    moves-execute_single cache w = elim (Option-cases (cached cache)) [
      | inl miss ↦ elim (Option-cases (find_tool req.tool_name ex.registry)) [
        | inl unknown ↦
            rw (moves, one-ready cache w, begin, execute_single, miss, unknown)
              (moves-finished (needed ex.max_retries) _ _ _)
        | inr (tool, found) ↦
            rw
              (
                moves,
                one-ready cache w,
                begin-found rt ex req tool found (clock w) cache miss,
                execute_single-found rt ex req tool found cache w miss,
              )
              (rw (back_off-zero rt ex req tool found w) at
                (moves-attempts tool found ex.max_retries 0 "" cache w (omega arith)))
      ]
      | inr (hit, known) ↦
          rw (moves, one-ready cache w, begin, execute_single, known)
            (moves-finished (needed ex.max_retries) _ _ _)
    ]
