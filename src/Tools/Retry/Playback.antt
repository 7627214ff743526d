-- ===== src/Tools/Retry/Playback.antt =====
-- The retry loop of `execute_with_retry` against a world that plays back a sequence of outcomes.
use yellowbullv.Shared.{
  ℕ, zero, suc, ◌+◌, ◌≤◌, ◌<◌, String, ◌≡◌, refl, ◌∙◌, ap, Option, some, Bool, true, false, List,
  [], ◌⊎◌, inl, inr, arith, if◌then◌else◌,
}
use yellowbullv.Shared.Json.{Json}
use yellowbullv.Dict.{Dict}
use yellowbullv.Tools.{Tool}
use yellowbullv.Tools.Schema.{validate}
use yellowbullv.Tools.Retry.{
  ToolContext, Outcome, returned, raised, retry_limit, retry_loop, execute_with_context,
  execute_with_retry,
}

-- The state of the world is how many outcomes it has played.
abbrev pub play : (ℕ → Outcome) → Tool → Dict Json → Option ToolContext → ℕ → Outcome × ℕ
play outcomes tool params context n = (outcomes n, suc n)

-- A result that asks for another attempt.
abbrev pub AsksAgain : Outcome → Type 0
AsksAgain (raised e) = ⊥
AsksAgain (returned r) = r.success ≡ false

-- The run that starts at the outcome number `from` ends with the `k`-th after it; all before that
-- asked for another attempt, and that one does not, or it is the last one allowed.
abbrev pub StopsAt : (ℕ → Outcome) → ℕ → ℕ → Outcome × ℕ → ℕ → Type 0
StopsAt outcomes from limit result k =
    (result ≡ (outcomes (from + k), suc (from + k)))
    × (k ≤ limit)
    × ((i : ℕ) → i < k → AsksAgain (outcomes (from + i)))
    × ((k ≡ limit) ⊎ (AsksAgain (outcomes (from + k)) → ⊥))

abbrev pub Stops : (ℕ → Outcome) → ℕ → ℕ → Outcome × ℕ → Type 0
Stops outcomes from limit result = (k : ℕ) × StopsAt outcomes from limit result k

module _ (outcomes : ℕ → Outcome) where
  -- the run that goes on for one more attempt
  Stops-suc :
      (from left : ℕ) (result : Outcome × ℕ)
      → AsksAgain (outcomes from)
      → Stops outcomes (suc from) left result
      → Stops outcomes from (suc left) result
  Stops-suc from left result again (k, (ends, le, before, last)) =
      let e : suc from + k ≡ from + suc k = omega arith in
      (suc k, (ends ∙ ap (λ n. (outcomes n, suc n)) e, omega arith, earlier, later last))
    where
      earlier : (i : ℕ) → i < suc k → AsksAgain (outcomes (from + i))
      earlier zero h = let e : from + 0 ≡ from = omega arith in rw e again
      earlier (suc i) h =
          let e : suc from + i ≡ from + suc i = omega arith in rw (← e) (before i (omega arith))

      later :
          (k ≡ left) ⊎ (AsksAgain (outcomes (suc from + k)) → ⊥)
          → (suc k ≡ suc left) ⊎ (AsksAgain (outcomes (from + suc k)) → ⊥)
      later (inl p) = inl (ap suc p)
      later (inr n) = let e : suc from + k ≡ from + suc k = omega arith in inr (rw e at n)

  -- the run that ends at once
  Stops-zero :
      (from limit : ℕ) (o : Outcome)
      → outcomes from ≡ o
      → (0 ≡ limit) ⊎ (AsksAgain o → ⊥)
      → Stops outcomes from limit (o, suc from)
  Stops-zero from limit o e last =
      let z : from + 0 ≡ from = omega arith in
      (0, (rw (z, e), omega arith, λ i h. absurd (omega arith), rw (z, e) last))

  module _ (tool : Tool) (params : Dict Json) where
    execute-play :
        (n : ℕ) → execute_with_context (play outcomes) tool params n ≡ (outcomes n, suc n)
    unfolding execute_with_context
    execute-play n = ground arith

    retry_loop-Stops :
        (limit from : ℕ) (o : Outcome)
        → outcomes from ≡ o
        → Stops outcomes from limit (retry_loop (play outcomes) limit tool params o (suc from))
    unfolding retry_loop
    retry_loop-Stops zero from o e = Stops-zero from zero o e (inl refl)
    retry_loop-Stops (suc left) from (raised x) e =
        Stops-zero from (suc left) (raised x) e (inr (λ h. h))
    retry_loop-Stops (suc left) from (returned r) e =
        rw (execute-play (suc from))
          (cases r.success refl (retry_loop-Stops left (suc from) (outcomes (suc from)) refl))
      where
        cases :
            (good : Bool)
            → r.success ≡ good
            → Stops outcomes
                (suc from)
                left
                (retry_loop (play outcomes) left tool params (outcomes (suc from)) (suc (suc from)))
            → Stops outcomes from (suc left) (
                if good
                then (returned r, suc from)
                else retry_loop
                    (play outcomes)
                    left
                    tool
                    params
                    (outcomes (suc from))
                    (suc (suc from)))
        cases true good rest = Stops-zero from (suc left) (returned r) e (inr (λ h. ground arith))
        cases false bad rest = Stops-suc from left _ (rw e bad) rest

    -- With valid parameters the tool is run at least once and at most once more than the limit (the
    -- caller's, or the tool's own where the caller gives none); it is run again exactly while it
    -- returns an unsuccessful result, and the answer is what the last run did.
    pub execute_with_retry-Stops :
        (iterate : List String → List String) (max_retries : Option ℕ) (from : ℕ)
        → validate iterate tool.info params ≡ some []
        → Stops outcomes from
            (retry_limit max_retries tool)
            (execute_with_retry (play outcomes) iterate max_retries tool params from)
    unfolding execute_with_retry
    execute_with_retry-Stops iterate max_retries from valid =
        rw (valid, execute_with_retry, execute-play from)
          (retry_loop-Stops (retry_limit max_retries tool) from (outcomes from) refl)
