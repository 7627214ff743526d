-- ===== src/Executor/Caching.antt =====
-- What `_execute_single` answers and what it caches.
use yellowbullv.Shared.{
  ℕ, suc, ◌≤◌, String, ◌≡◌, refl, ◌≢◌, Bool, true, false, Option, none, some, inl, inr, arith,
  if◌then◌else◌, str_eq, ◌&&◌, Option-cases, Bool-cases,
}
use yellowbullv.Dict.{lookup, insert}
use yellowbullv.Dict.Laws.{lookup-insert}
use yellowbullv.Tools.{Tool, ToolResult, find_tool}
use yellowbullv.Executor.{
  Runtime, Executor, ToolCallRequest, timeout, ExecutionResult, Cache, Single, done, escaped,
  Attempt, returned, timed_out, raised, cancelled, succeeded, result_of, exhausted, remember,
  cache_key, attempts, execute_single, from_cache, unknown_tool,
}
use yellowbullv.Executor.Retries.{Settles, attempts-stops}

-- A result in order: a success has no error text and a failure no content, and the status is never
-- `timeout`, which the engine has and does not use.
pub record IsSound (r : ExecutionResult) : Type 0 where
  pub no_error : succeeded r.status ≡ true → r.error ≡ ""
  pub no_content : succeeded r.status ≡ false → r.content ≡ ""
  pub not_timeout : r.status ≢ timeout

-- What the cache may hold: successes.
pub record IsGood (cache : Cache) : Type 0 where
  pub holds :
      (k : String) (r : ExecutionResult) → lookup k cache ≡ some r → succeeded r.status ≡ true
  pub sound : (k : String) (r : ExecutionResult) → lookup k cache ≡ some r → IsSound r

pub result_of-IsSound :
    (req : ToolCallRequest) (r : ToolResult) (d n : ℕ) → IsSound (result_of req r d n)
unfolding result_of
result_of-IsSound req r d n = record {
  no_error = λ h. ground arith;
  no_content = λ h. ground arith;
  not_timeout = λ h. ground arith;
}

pub exhausted-IsSound :
    (ex : Executor) (req : ToolCallRequest) (e : String) → IsSound (exhausted ex req e)
unfolding exhausted
exhausted-IsSound ex req e = record {
  no_error = λ h. absurd (ground arith);
  no_content = λ h. refl;
  not_timeout = λ h. ground arith;
}

pub exhausted-fails :
    (ex : Executor) (req : ToolCallRequest) (e : String)
    → succeeded (exhausted ex req e).status ≡ false
unfolding exhausted
exhausted-fails ex req e = ground arith

pub remember-IsGood :
    (ex : Executor) (key : String) (r : ExecutionResult) (cache : Cache)
    → IsSound r
    → IsGood cache
    → IsGood (remember ex key r cache)
unfolding remember
remember-IsGood ex key r cache sound good = cases (succeeded r.status && ex.enable_cache) refl
  where
    cases :
        (b : Bool)
        → (succeeded r.status && ex.enable_cache) ≡ b
        → IsGood (if b then insert key r cache else cache)
    cases false e = good
    cases true e = record {
      holds = λ k x h. ground (arith, lookup-insert key k r cache, good.holds k x);
      sound = λ k x h. elim (Bool-cases (str_eq key k)) [
        | inl same ↦ let p : r ≡ x = ground (arith, lookup-insert key k r cache) in rw p at sound
        | inr other ↦ good.sound k x (ground (arith, lookup-insert key k r cache))
      ];
    }

pub done_inj : (a b : ExecutionResult) → done a ≡ done b → a ≡ b
done_inj a b e = cc

-- An answer that is a result.
abbrev pub Answers : (ExecutionResult → Type 0) → Single → Type 0
Answers P (done r) = P r
Answers P (escaped e) = Unit

module _ (rt : Runtime) (ex : Executor) (req : ToolCallRequest) where
  open rt use {World}

  pub record IsAnswer (r : ExecutionResult) : Type 0 where
    pub named : r.tool_name ≡ req.tool_name
    pub sound : IsSound r
    pub bounded : r.retry_count ≤ ex.max_retries

  -- An answer in order beside a cache in order.
  abbrev pub InOrder : Single × Cache × World → Type 0
  InOrder result = Answers IsAnswer result.0 × IsGood result.1

  module _ (tool : Tool) where
    settled-InOrder :
        (o : Attempt) (number d : ℕ) (answer : Single) (before after : Cache)
        → Settles rt ex req tool o number d answer before after
        → number ≤ ex.max_retries
        → IsGood before
        → Answers IsAnswer answer × IsGood after
    settled-InOrder (returned r) number d answer before after (p, q) le good =
        rw (p, q)
          ((
            record {
              named = unfold result_of in refl;
              sound = result_of-IsSound req r d number;
              bounded = unfold result_of in le;
            },
            remember-IsGood ex (cache_key rt req) (result_of req r d number) before
                (result_of-IsSound req r d number) good,
          ))
    settled-InOrder (cancelled e) number d answer before after (p, q) le good = rw (p, q) (tt, good)
    settled-InOrder timed_out number d answer before after h le good = absurd h
    settled-InOrder (raised e) number d answer before after h le good = absurd h

    attempts-InOrder :
        (cache : Cache) (w : World)
        → IsGood cache
        → InOrder (attempts rt ex req tool (suc ex.max_retries) 0 "" cache w)
    attempts-InOrder cache w good = elim (attempts-stops rt ex req tool cache w) [
      | inl s ↦ settled-InOrder _ _ _ _ cache _ s.settled (omega (arith, s.within)) good
      | inr g ↦ rw g.reported (
        record {
          named = unfold exhausted in refl;
          sound = exhausted-IsSound ex req _;
          bounded = unfold exhausted in omega arith;
        },
        good,
      )
    ]

  pub hit-IsAnswer : (hit : ExecutionResult) → IsSound hit → IsAnswer (from_cache req.tool_name hit)
  hit-IsAnswer hit s = record {
    named = refl;
    sound = record {
      no_error = s.no_error;
      no_content = s.no_content;
      not_timeout = s.not_timeout;
    };
    bounded = omega arith;
  }

  pub unknown-IsAnswer : IsAnswer (unknown_tool req)
  unfolding unknown_tool
  unknown-IsAnswer = record {
    named = refl;
    sound = record {
      no_error = λ h. absurd (ground arith);
      no_content = λ h. refl;
      not_timeout = λ h. ground arith;
    };
    bounded = omega arith;
  }

  -- From a cache that holds only successes, a call leaves such a cache, and where it answers with
  -- a result, that result carries the request's tool name, at most `max_retries` retries, no error
  -- text on a success, no content on a failure, and never the status `timeout`.
  pub execute_single-InOrder :
      (cache : Cache) (w : World) → IsGood cache → InOrder (execute_single rt ex req cache w)
  unfolding execute_single
  execute_single-InOrder cache w good =
      cached (if ex.enable_cache then lookup (cache_key rt req) cache else none) refl
    where
      cached :
          (o : Option ExecutionResult)
          → (if ex.enable_cache then lookup (cache_key rt req) cache else none) ≡ o
          → InOrder (execute_single rt ex req cache w)
      cached (some hit) e =
          rw (e, execute_single)
            (hit-IsAnswer hit (good.sound (cache_key rt req) hit (ground arith)), good)
      cached none e =
          rw (e, execute_single)
            (elim (Option-cases (find_tool req.tool_name ex.registry)) [
              | inl f ↦ rw f (unknown-IsAnswer, good)
              | inr (tool, f) ↦ rw f (attempts-InOrder tool cache w good)
            ])
