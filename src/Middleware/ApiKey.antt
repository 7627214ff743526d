-- ===== src/Middleware/ApiKey.antt =====
-- api/middleware/api_key_auth.py: the check of the presented key, and who gets through.
use yellowbullv.Shared.{
  String, ◌≡◌, ◌≢◌, ◌↔◌, Bool, true, false, List, not, arith, if◌then◌else◌, is_empty, str_eq_iff,
}
use yellowbullv.Dict.Laws.{elem}
use yellowbullv.Middleware.{
  Request, Outcome, response, http_error, or_default, is_excluded, presented_key,
}

pub record ApiKeyAuth : Type 0 where
  pub enabled : Bool
  pub api_keys : List String
  pub exclude_paths : List String

-- The constructor: a missing list of paths is the empty one.
unfoldable pub init : Bool → List String → List String → ApiKeyAuth
init enabled api_keys exclude_paths = record {
  enabled = enabled;
  api_keys = api_keys;
  exclude_paths = or_default exclude_paths;
}

module _ {R : Type 0} (call_next : Request → R) where
  unfoldable pub dispatch : ApiKeyAuth → Request → Outcome R
  dispatch m r =
      if not m.enabled
      then response (call_next r)
      else if is_excluded r.path m.exclude_paths
      then response (call_next r)
      else if is_empty (presented_key r)
      then http_error 401
      else if elem (presented_key r) m.api_keys
      then response (call_next r)
      else http_error 403

  -- With the check on and a path that is not excluded: the application answers exactly when the
  -- presented key is not empty and is one of the allowed keys; the error is 401 exactly when no
  -- key is presented, and 403 exactly when one is presented that is not allowed.
  pub dispatch_iff :
      (m : ApiKeyAuth) (r : Request)
      → m.enabled ≡ true
      → is_excluded r.path m.exclude_paths ≡ false
      → ((dispatch m r ≡ response (call_next r))
          ↔ ((presented_key r ≢ "") × (elem (presented_key r) m.api_keys ≡ true)))
        × ((dispatch m r ≡ http_error 401) ↔ (presented_key r ≡ ""))
        × ((dispatch m r ≡ http_error 403)
            ↔ ((presented_key r ≢ "") × (elem (presented_key r) m.api_keys ≡ false)))
  unfolding dispatch
  dispatch_iff m r on inside =
      let e = str_eq_iff (presented_key r) "" in
      (
        (ground (arith, e), ground (arith, e)),
        (ground (arith, e), ground (arith, e)),
        (ground (arith, e), ground (arith, e)),
      )
