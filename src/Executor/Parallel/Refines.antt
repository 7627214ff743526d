-- ===== src/Executor/Parallel/Refines.antt =====
-- core/tool_executor.py: the machine of a parallel batch against the loop of `_execute_single`.
use yellowbullv.Shared.{
  ℕ, zero, suc, ◌+◌, String, ◌≡◌, refl, none, some, List, [], ◌∷◌, arith, if◌then◌else◌, inl, inr,
}
use yellowbullv.Dict.{lookup}
use yellowbullv.Tools.{Tool, find_tool}
use yellowbullv.Executor.{
  Runtime, Executor, ToolCallRequest, Cache, Single, done, Attempt, returned, timed_out, raised,
  cancelled, back_off, attempts, execute_single, cache_key, effective_timeout, exhausted,
}
use yellowbullv.Executor.Retries.{
  attempt, message, Retried, Attempt-cases, loop-returned, loop-cancelled, loop-Retried,
}
use yellowbullv.Executor.Parallel.{
  Phase, ready, running, sleeping, finished, Event, starts, ends, wakes, begin, limit, retry, ended,
  step,
}

module _ (rt : Runtime) (ex : Executor) (req : ToolCallRequest) where
  open rt use {World, clock}

  -- The machine under a list of events, with the cache that it leaves.
  solo : Phase → List Event → Cache → Phase × Cache
  solo p [] cache = (p, cache)
  solo p (e ∷ es) cache = solo (step rt ex req p e cache).0 es (step rt ex req p e cache).1

  module _ (tool : Tool) where
    -- What happens to a running attempt and after it.
    continue : Attempt → List Event → List Event
    continue (returned r) es = []
    continue (cancelled x) es = []
    continue timed_out es = es
    continue (raised x) es = es

    script : ℕ → ℕ → World → List Event
    script zero n w =
        ends (attempt rt ex req tool n w).0 (clock (attempt rt ex req tool n w).1) ∷ []
    script (suc left) n w =
        let w' = (attempt rt ex req tool n w).1 in
        ends (attempt rt ex req tool n w).0 (clock w')
        ∷ continue (attempt rt ex req tool n w).0
            (wakes (clock (back_off rt ex req tool (suc n) w')) ∷ script left (suc n) w')

    -- What the loop answers, as the machine shows it.
    abbrev shown : Single × Cache × World → Phase × Cache
    shown result = (finished result.0, result.1)

    module _ (found : find_tool req.tool_name ex.registry ≡ some tool) where
      limit-found : limit rt ex req ≡ effective_timeout ex tool
      unfolding limit
      limit-found = ground arith

      pub ended-Retried :
          (o : Attempt) (n start now : ℕ) (cache : Cache)
          → Retried rt ex req tool o
          → ended rt ex req o n start now cache
            ≡ (retry rt ex req n (message rt ex req tool o), cache)
      unfolding ended
      ended-Retried (returned r) n start now cache h = absurd h
      ended-Retried timed_out n start now cache h = rw limit-found
      ended-Retried (raised x) n start now cache h = refl
      ended-Retried (cancelled x) n start now cache h = absurd h

      continue-Retried :
          (o : Attempt) (es : List Event) → Retried rt ex req tool o → continue o es ≡ es
      unfolding continue
      continue-Retried (returned r) es h = absurd h
      continue-Retried timed_out es h = refl
      continue-Retried (raised x) es h = refl
      continue-Retried (cancelled x) es h = absurd h

      pub retry-over :
          (n : ℕ) (m : String)
          → n + 0 ≡ ex.max_retries
          → retry rt ex req n m ≡ finished (done (exhausted ex req m))
      unfolding retry
      retry-over n m h = ground arith

      pub retry-more :
          (n left : ℕ) (m : String)
          → n + suc left ≡ ex.max_retries
          → retry rt ex req n m ≡ sleeping (suc n)
      unfolding retry
      retry-more n left m h = ground arith

      solo-script :
          (left n : ℕ) (last : String) (cache : Cache) (w : World)
          → n + left ≡ ex.max_retries
          → solo (running n (clock (back_off rt ex req tool n w))) (script left n w) cache
            ≡ shown (attempts rt ex req tool (suc left) n last cache w)
      unfolding solo script step
      solo-script zero n last cache w h =
          elim (Attempt-cases rt ex req tool (attempt rt ex req tool n w).0) [
            | inl (r, e) ↦ rw (loop-returned rt ex req tool 0 n last cache w r e, e, ended) refl
            | inr (inl (x, e)) ↦
                rw (loop-cancelled rt ex req tool 0 n last cache w x e, e, ended) refl
            | inr (inr f) ↦
                rw
                  (
                    loop-Retried rt ex req tool 0 n last cache w f,
                    ended-Retried _ n _ _ cache f,
                    retry-over n _ h,
                  )
                  (unfold attempts in refl)
          ]
      solo-script (suc left) n last cache w h =
          elim (Attempt-cases rt ex req tool (attempt rt ex req tool n w).0) [
            | inl (r, e) ↦
                rw (loop-returned rt ex req tool (suc left) n last cache w r e, e, ended)
                  (unfold continue in refl)
            | inr (inl (x, e)) ↦
                rw (loop-cancelled rt ex req tool (suc left) n last cache w x e, e, ended)
                  (unfold continue in refl)
            | inr (inr f) ↦
                rw
                  (
                    loop-Retried rt ex req tool (suc left) n last cache w f,
                    script,
                    solo,
                    step,
                    ended-Retried _ n _ _ cache f,
                    continue-Retried _ _ f,
                    retry-more n left _ h,
                  )
                  (solo-script left (suc n) (message rt ex req tool (attempt rt ex req tool n w).0)
                    cache (attempt rt ex req tool n w).1 (omega arith))
          ]

      pub begin-found :
          (now : ℕ) (cache : Cache)
          → (if ex.enable_cache then lookup (cache_key rt req) cache else none) ≡ none
          → begin rt ex req now cache ≡ running 0 now
      unfolding begin
      begin-found now cache miss = rw (begin, miss, found)

      pub execute_single-found :
          (cache : Cache) (w : World)
          → (if ex.enable_cache then lookup (cache_key rt req) cache else none) ≡ none
          → execute_single rt ex req cache w
            ≡ attempts rt ex req tool (suc ex.max_retries) 0 "" cache w
      unfolding execute_single
      execute_single-found cache w miss = rw (execute_single, miss, found)

      pub back_off-zero : (w : World) → back_off rt ex req tool 0 w ≡ w
      unfolding back_off
      back_off-zero w = refl

      -- Driven by what the world does, from the start, where the registry has the tool and the
      -- cache no result, the machine comes to the answer of `_execute_single` and to the cache
      -- that it leaves.
      solo-execute_single :
          (cache : Cache) (w : World)
          → (if ex.enable_cache then lookup (cache_key rt req) cache else none) ≡ none
          → solo ready (starts (clock w) ∷ script ex.max_retries 0 w) cache
            ≡ (finished (execute_single rt ex req cache w).0, (execute_single rt ex req cache w).1)
      unfolding solo step
      solo-execute_single cache w miss =
          rw (execute_single-found cache w miss, solo, step, begin-found (clock w) cache miss)
            (rw (back_off-zero w) at (solo-script ex.max_retries 0 "" cache w (omega arith)))
