-- ===== src/Executor/Retries.antt =====
-- The retry loop of the executor against the outcomes of its attempts: when it stops, with what
-- result, and in which state of the world.
use yellowbullv.Shared.{ℕ, zero, suc, ◌+◌, ◌-◌, ◌≤◌, ◌<◌, String, ◌≡◌, refl, ◌⊎◌, inl, inr, arith}
use yellowbullv.Tools.{Tool, ToolResult}
use yellowbullv.Executor.{
  Runtime, Executor, ToolCallRequest, Cache, Single, done, escaped, Attempt, returned, timed_out,
  raised, cancelled, effective_timeout, result_of, timeout_error, exhausted, remember, cache_key,
  invoke_tool, back_off, attempts,
}

module _ (rt : Runtime) (ex : Executor) (req : ToolCallRequest) (tool : Tool) where
  open rt use {World, clock, show_seconds}

  -- Attempt number `n`, after its back-off: its outcome, and the world that it leaves.
  abbrev pub attempt : ℕ → World → Attempt × World
  attempt n w =
      invoke_tool rt tool req.arguments (effective_timeout ex tool) (back_off rt ex req tool n w)

  -- With attempt number `n` made in `w`, the outcome of the `k`-th attempt after it, where the loop
  -- gets so far; the world before that attempt; and the world after it.
  abbrev pub outcome_at : ℕ → World → ℕ → Attempt
  outcome_at n w zero = (attempt n w).0
  outcome_at n w (suc k) = outcome_at (suc n) (attempt n w).1 k

  abbrev pub world_before : ℕ → World → ℕ → World
  world_before n w zero = w
  world_before n w (suc k) = world_before (suc n) (attempt n w).1 k

  abbrev pub world_after : ℕ → World → ℕ → World
  world_after n w zero = (attempt n w).1
  world_after n w (suc k) = world_after (suc n) (attempt n w).1 k

  -- A timeout and an exception are tried again.
  abbrev pub Retried : Attempt → Type 0
  Retried (returned r) = ⊥
  Retried timed_out = Unit
  Retried (raised e) = Unit
  Retried (cancelled e) = ⊥

  -- the error that is kept of it
  abbrev pub message : Attempt → String
  message (returned r) = ""
  message timed_out = timeout_error show_seconds req (effective_timeout ex tool)
  message (raised e) = e
  message (cancelled e) = e

  -- What an attempt that is not tried again makes of the call: `number` is its number and
  -- `duration` the time that it took.
  abbrev pub Settles : Attempt → (number duration : ℕ) → Single → Cache → Cache → Type 0
  Settles (returned r) number duration answer before after =
      (answer ≡ done (result_of req r duration number))
      × (after ≡ remember ex (cache_key rt req) (result_of req r duration number) before)
  Settles (cancelled e) number duration answer before after =
      (answer ≡ escaped e) × (after ≡ before)
  Settles timed_out number duration answer before after = ⊥
  Settles (raised e) number duration answer before after = ⊥

  abbrev pub duration_at : ℕ → World → ℕ → ℕ
  duration_at n w zero = clock (attempt n w).1 - clock (back_off rt ex req tool n w)
  duration_at n w (suc k) = duration_at (suc n) (attempt n w).1 k

  -- The loop stopped at the `k`-th attempt from number `n` on, the first that was not to be tried
  -- again.
  pub record Stopped (n : ℕ) (w : World) (cache : Cache) (left : ℕ)
      (result : Single × Cache × World) : Type 0 where
    pub k : ℕ
    pub within : k < left
    pub earlier : (i : ℕ) → i < k → Retried (outcome_at n w i)
    pub settled : Settles (outcome_at n w k) (n + k) (duration_at n w k) result.0 cache result.1
    pub world : result.2 ≡ world_after n w k

  -- All attempts failed, and the last one's error is reported; nothing is cached.
  pub record GaveUp (n : ℕ) (w : World) (cache : Cache) (left : ℕ) (result : Single × Cache × World)
      : Type 0 where
    pub all_failed : (i : ℕ) → i ≤ left → Retried (outcome_at n w i)
    pub reported :
        result
        ≡ (done (exhausted ex req (message (outcome_at n w left))), cache, world_after n w left)

  -- The loop at one outcome of its next attempt.
  module _ (left n : ℕ) (last : String) (cache : Cache) (w : World) where
    pub loop-returned :
        (r : ToolResult)
        → (attempt n w).0 ≡ returned r
        → attempts rt ex req tool (suc left) n last cache w ≡ (
          done (result_of req r (duration_at n w 0) n),
          remember ex (cache_key rt req) (result_of req r (duration_at n w 0) n) cache,
          (attempt n w).1,
        )
    unfolding attempts
    loop-returned r e = ground arith

    pub loop-cancelled :
        (x : String)
        → (attempt n w).0 ≡ cancelled x
        → attempts rt ex req tool (suc left) n last cache w ≡ (escaped x, cache, (attempt n w).1)
    unfolding attempts
    loop-cancelled x e = ground arith

    pub loop-Retried :
        Retried (attempt n w).0
        → attempts rt ex req tool (suc left) n last cache w
          ≡ attempts rt ex req tool left (suc n) (message (attempt n w).0) cache (attempt n w).1
    unfolding attempts
    loop-Retried h = cases (attempt n w).0 refl h
      where
        cases :
            (o : Attempt)
            → (attempt n w).0 ≡ o
            → Retried o
            → attempts rt ex req tool (suc left) n last cache w
              ≡ attempts rt ex req tool left (suc n) (message o) cache (attempt n w).1
        cases (returned r) e h = absurd h
        cases timed_out e h = ground arith
        cases (raised x) e h = ground arith
        cases (cancelled x) e h = absurd h

  module _ (n : ℕ) (w : World) (cache : Cache) (left : ℕ) (result : Single × Cache × World) where
    Stopped-suc :
        Retried (attempt n w).0
        → Stopped (suc n) (attempt n w).1 cache left result
        → Stopped n w cache (suc left) result
    Stopped-suc h s = record {
      k = suc s.k;
      within = omega (arith, s.within);
      earlier = earlier;
      settled = let e : n + suc s.k ≡ suc n + s.k = omega arith in rw e s.settled;
      world = s.world;
    }
      where
        earlier : (i : ℕ) → i < suc s.k → Retried (outcome_at n w i)
        earlier zero lt = h
        earlier (suc i) lt = s.earlier i (omega arith)

    GaveUp-suc :
        Retried (attempt n w).0
        → GaveUp (suc n) (attempt n w).1 cache left result
        → GaveUp n w cache (suc left) result
    GaveUp-suc h g = record { all_failed = all_failed; reported = g.reported }
      where
        all_failed : (i : ℕ) → i ≤ suc left → Retried (outcome_at n w i)
        all_failed zero le = h
        all_failed (suc i) le = g.all_failed i (omega arith)

  module _ (left n : ℕ) (last : String) (cache : Cache) (w : World) where
    Stopped-returned :
        (r : ToolResult)
        → (attempt n w).0 ≡ returned r
        → Stopped n w cache (suc left) (attempts rt ex req tool (suc left) n last cache w)
    Stopped-returned r e =
        let z : n + 0 ≡ n = omega arith in
        rw (loop-returned left n last cache w r e) (record {
          k = 0;
          within = omega arith;
          earlier = λ i h. absurd (omega arith);
          settled = rw (e, z) (refl, refl);
          world = refl;
        })

    Stopped-cancelled :
        (x : String)
        → (attempt n w).0 ≡ cancelled x
        → Stopped n w cache (suc left) (attempts rt ex req tool (suc left) n last cache w)
    Stopped-cancelled x e = rw (loop-cancelled left n last cache w x e) (record {
      k = 0;
      within = omega arith;
      earlier = λ i h. absurd (omega arith);
      settled = rw e (refl, refl);
      world = refl;
    })

  -- Every outcome settles the call or is tried again.
  pub Attempt-cases :
      (o : Attempt)
      → ((r : ToolResult) × (o ≡ returned r)) ⊎ ((x : String) × (o ≡ cancelled x)) ⊎ Retried o
  Attempt-cases (returned r) = inl (r, refl)
  Attempt-cases (cancelled x) = inr (inl (x, refl))
  Attempt-cases timed_out = inr (inr tt)
  Attempt-cases (raised x) = inr (inr tt)

  attempts_lem :
      (left n : ℕ) (last : String) (cache : Cache) (w : World)
      → Stopped n w cache (suc left) (attempts rt ex req tool (suc left) n last cache w)
        ⊎ GaveUp n w cache left (attempts rt ex req tool (suc left) n last cache w)
  attempts_lem zero n last cache w = elim (Attempt-cases (attempt n w).0) [
    | inl (r, e) ↦ inl (Stopped-returned 0 n last cache w r e)
    | inr (inl (x, e)) ↦ inl (Stopped-cancelled 0 n last cache w x e)
    | inr (inr h) ↦ inr (
        rw (loop-Retried 0 n last cache w h) (record {
          all_failed = λ i le. let z : i ≡ 0 = omega arith in rw z h;
          reported = unfold attempts in refl;
        }))
  ]
  attempts_lem (suc left) n last cache w =
      let rest = attempts_lem left (suc n) (message (attempt n w).0) cache (attempt n w).1 in
      elim (Attempt-cases (attempt n w).0) [
        | inl (r, e) ↦ inl (Stopped-returned (suc left) n last cache w r e)
        | inr (inl (x, e)) ↦ inl (Stopped-cancelled (suc left) n last cache w x e)
        | inr (inr h) ↦ rw (loop-Retried (suc left) n last cache w h) (elim rest [
          | inl s ↦ inl (Stopped-suc n w cache (suc left) _ h s)
          | inr g ↦ inr (GaveUp-suc n w cache left _ h g)
        ])
      ]

  -- The retry loop, run for `max_retries + 1` attempts, either stops at the first attempt that
  -- returns or is cancelled, with that attempt's result, its number as the retry count, its own
  -- duration, and the result remembered if it is a success and the cache is on; or every one of the
  -- attempts timed out or raised, and the answer reports the last one's error and leaves the cache
  -- alone. In both cases the world is what those attempts, each after its back-off, made of it.
  pub attempts-stops :
      (cache : Cache) (w : World)
      → Stopped 0 w cache
          (suc ex.max_retries)
          (attempts rt ex req tool (suc ex.max_retries) 0 "" cache w)
        ⊎ GaveUp 0 w cache ex.max_retries
            (attempts rt ex req tool (suc ex.max_retries) 0 "" cache w)
  attempts-stops cache w = attempts_lem ex.max_retries 0 "" cache w
