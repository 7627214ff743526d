-- ===== src/Middleware/RateLimit.antt =====
-- api/middleware/rate_limit.py. Times are readings of `time.monotonic()` in ticks, and
-- `t > now - window` is written `now < t + window`, which says the same with no negative number.
pub mod Window
pub mod Bounds
use yellowbullv.Shared.{
  ℕ, ◌+◌, String, Option, none, some, Bool, true, false, List, [], ◌∷◌, ◌++◌, not, ltb, leb,
  if◌then◌else◌, is_empty, filter, length, concat,
}
use yellowbullv.Dict.{Dict, lookup, insert}
use yellowbullv.Middleware.{
  Request, Outcome, response, http_error, is_excluded, or_default, presented_key,
}

pub record RateLimit : Type 0 where
  pub enabled : Bool
  pub max_requests : ℕ
  pub window_seconds : ℕ
  pub exclude_paths : List String
  pub buckets : Dict (List ℕ)

unfoldable pub init : Bool → ℕ → ℕ → List String → RateLimit
init enabled max_requests window_seconds exclude_paths = record {
  enabled = enabled;
  max_requests = max_requests;
  window_seconds = window_seconds;
  exclude_paths = or_default exclude_paths;
  buckets = [];
}

-- `self._buckets[user_id]` on a `defaultdict`
abbrev timestamps_or : Option (List ℕ) → List ℕ
timestamps_or none = []
timestamps_or (some ts) = ts

unfoldable pub bucket : String → RateLimit → List ℕ
unfolding lookup
bucket user m = timestamps_or (lookup user m.buckets)

-- `t > cutoff`
abbrev pub is_recent : ℕ → ℕ → ℕ → Bool
is_recent window now t = ltb now (t + window)

unfoldable pub check_limit : String → ℕ → RateLimit → Bool × RateLimit
check_limit user now m =
    let pruned = filter (is_recent m.window_seconds now) (bucket user m) in
    if leb m.max_requests (length pruned)
    then (false, record m { buckets = insert user pruned m.buckets })
    else (true, record m { buckets = insert user (pruned ++ now ∷ []) m.buckets })

-- `_extract_user_id`
client_or : Option String → String
client_or none = "unknown"
client_or (some host) = host

unfoldable pub extract_user_id : Request → String
unfolding client_or
extract_user_id r =
    if is_empty (presented_key r)
    then concat ("ip:" ∷ client_or r.client_host ∷ [])
    else concat ("key:" ∷ presented_key r ∷ [])

module _ {R : Type 0} (call_next : Request → R) where
  unfoldable pub dispatch : Request → ℕ → RateLimit → Outcome R × RateLimit
  dispatch r now m =
      if not m.enabled
      then (response (call_next r), m)
      else if is_excluded r.path m.exclude_paths
      then (response (call_next r), m)
      else let (admitted, m') = check_limit (extract_user_id r) now m in
        (if admitted then response (call_next r) else http_error 429, m')
