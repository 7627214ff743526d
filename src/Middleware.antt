-- ===== src/Middleware.antt =====
-- api/middleware: what the two middleware classes share. A request carries the parts that they
-- read; the rest of the application, `call_next`, is an argument.
pub mod ApiKey
pub mod RateLimit
mod Tests
use yellowbullv.Shared.{
  ℕ, String, Option, none, some, Bool, true, false, List, [], ◌∷◌, ◌||◌, if◌then◌else◌, is_empty,
  str_or, or_empty, starts_with, erase_text,
}

pub record Request : Type 0 where
  pub path : String
  pub x_api_key : Option String
  pub authorization : Option String
  pub client_host : Option String

-- A response of the application, or an `HTTPException` with its status code.
pub data Outcome (R : Type 0) : Type 0 where
  response : R → Outcome R
  http_error : ℕ → Outcome R

-- `exclude_paths or ["/api/health", "/docs", "/openapi.json"]`
abbrev pub or_default : List String → List String
or_default [] = "/api/health" ∷ "/docs" ∷ "/openapi.json" ∷ []
or_default (p ∷ ps) = p ∷ ps

-- the loop over the excluded paths
unfoldable pub is_excluded : String → List String → Bool
is_excluded path [] = false
is_excluded path (p ∷ ps) = starts_with path p || is_excluded path ps

-- `headers.get("X-API-Key") or headers.get("Authorization", "").replace("Bearer ", "")`
unfoldable pub presented_key : Request → String
presented_key r = str_or (or_empty r.x_api_key) (erase_text "Bearer " (or_empty r.authorization))
