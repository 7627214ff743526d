-- ===== src/Executor/Hits.antt =====
-- A request that is made again: what `_execute_single` answers from its cache.
use yellowbullv.Shared.{
  ℕ, suc, String, ◌≡◌, refl, sym, ap, ◌∙◌, true, false, none, some, inl, inr, arith, str_eq_refl,
  Option-cases,
}
use yellowbullv.Dict.{lookup}
use yellowbullv.Dict.Laws.{lookup-insert}
use yellowbullv.Tools.{Tool, find_tool}
use yellowbullv.Executor.{
  Runtime, Executor, ToolCallRequest, ExecutionResult, Cache, Single, done, Attempt, returned,
  timed_out, raised, cancelled, succeeded, result_of, exhausted, remember, cache_key, attempts,
  execute_single, from_cache, unknown_tool,
}
use yellowbullv.Executor.Retries.{Settles, attempts-stops}
use yellowbullv.Executor.Caching.{exhausted-fails, done_inj}

module _ (rt : Runtime) (ex : Executor) (req : ToolCallRequest) where
  open rt use {World}

  remember-hit :
      (r : ExecutionResult) (cache : Cache)
      → ex.enable_cache ≡ true
      → succeeded r.status ≡ true
      → lookup (cache_key rt req) (remember ex (cache_key rt req) r cache) ≡ some r
  unfolding remember
  remember-hit r cache on good = ground (
    arith,
    lookup-insert (cache_key rt req) (cache_key rt req) r cache,
    str_eq_refl (cache_key rt req),
  )

  exhausted-ne :
      (r : ExecutionResult) (m : String)
      → done r ≡ done (exhausted ex req m)
      → succeeded r.status ≡ true
      → ⊥
  exhausted-ne r m e good = ground (arith, exhausted-fails ex req m)

  module _ (tool : Tool) where
    settled-cached :
        (o : Attempt) (number d : ℕ) (r : ExecutionResult) (answer : Single) (before after : Cache)
        → Settles rt ex req tool o number d answer before after
        → answer ≡ done r
        → ex.enable_cache ≡ true
        → succeeded r.status ≡ true
        → lookup (cache_key rt req) after ≡ some r
    settled-cached (returned x) number d r answer before after (p, q) e on good =
        let same : result_of req x d number ≡ r = ground arith in
        rw (q, same) (remember-hit r before on good)
    settled-cached (cancelled x) number d r answer before after (p, q) e on good =
        absurd (ground arith)
    settled-cached timed_out number d r answer before after h e on good = absurd h
    settled-cached (raised x) number d r answer before after h e on good = absurd h

    attempts-cached :
        (cache : Cache) (w : World) (r : ExecutionResult)
        → (attempts rt ex req tool (suc ex.max_retries) 0 "" cache w).0 ≡ done r
        → ex.enable_cache ≡ true
        → succeeded r.status ≡ true
        → lookup (cache_key rt req) (attempts rt ex req tool (suc ex.max_retries) 0 "" cache w).1
          ≡ some r
    attempts-cached cache w r e on good = elim (attempts-stops rt ex req tool cache w) [
      | inl s ↦ settled-cached _ _ _ r _ cache _ s.settled e on good
      | inr g ↦ absurd (exhausted-ne r _ (sym e ∙ ap (λ x. x.0) g.reported) good)
    ]

  -- The answer to a request that the cache holds a result for: neither the world nor the cache
  -- changes.
  hit_lem :
      (hit : ExecutionResult) (cache : Cache) (w : World)
      → ex.enable_cache ≡ true
      → lookup (cache_key rt req) cache ≡ some hit
      → execute_single rt ex req cache w ≡ (done (from_cache req.tool_name hit), cache, w)
  unfolding execute_single
  hit_lem hit cache w on e = ground arith

  unknown-fails : succeeded (unknown_tool req).status ≡ false
  unfolding unknown_tool
  unknown-fails = refl

  -- With the cache on, after a call that answered with a success the same request is answered from
  -- the cache: with that success's content, with no duration and no retries, without running the
  -- tool (the world is as it was, whatever it is by then), and without changing the cache.
  pub execute_single-again :
      (cache : Cache) (w later : World) (r : ExecutionResult)
      → ex.enable_cache ≡ true
      → (execute_single rt ex req cache w).0 ≡ done r
      → succeeded r.status ≡ true
      → execute_single rt ex req (execute_single rt ex req cache w).1 later
        ≡ (done (from_cache req.tool_name r), (execute_single rt ex req cache w).1, later)
  execute_single-again cache w later r on e good =
      elim (Option-cases (lookup (cache_key rt req) cache)) [
        | inr (hit, h) ↦
            let first = hit_lem hit cache w on h in
            let known : from_cache req.tool_name hit ≡ r =
              done_inj _ r (sym (ap (λ x. x.0) first) ∙ e) in
            rw first (
              hit_lem hit cache later on h
              ∙ ap (λ x. (done (from_cache req.tool_name x), cache, later)) known)
        | inl miss ↦ hit_lem r (execute_single rt ex req cache w).1 later on (stored miss)
      ]
    where
      stored :
          lookup (cache_key rt req) cache ≡ none
          → lookup (cache_key rt req) (execute_single rt ex req cache w).1 ≡ some r
      stored miss = elim (Option-cases (find_tool req.tool_name ex.registry)) [
        | inl f ↦ absurd (unfold execute_single in ground (arith, unknown-fails))
        | inr (tool, f) ↦ unfold execute_single in ground (arith, attempts-cached tool cache w r)
      ]
