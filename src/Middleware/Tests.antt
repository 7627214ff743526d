-- ===== src/Middleware/Tests.antt =====
-- The middleware on concrete requests; the application answers every request with 200.
use yellowbullv.Shared.{
  ℕ, ◌≤◌, ◌≡◌, ◌≢◌, ◌↔◌, refl, none, some, true, false, List, [], ◌∷◌, arith, filter, length,
}
use yellowbullv.Dict.{lookup, insert}
use yellowbullv.Dict.Laws.{elem}
use yellowbullv.Middleware.{Request, response, http_error, is_excluded, presented_key}
use yellowbullv.Middleware.RateLimit.{RateLimit, bucket, check_limit}
use yellowbullv.Middleware.RateLimit.Window.{Event, Ordered, admitted}
use yellowbullv.Middleware.RateLimit.Bounds.{in_window, admitted_bounded}
use yellowbullv.Middleware.ApiKey.{ApiKeyAuth, dispatch, dispatch_iff}

abbrev ok : Request → ℕ
ok r = 200

abbrev guarded : ApiKeyAuth
guarded = record { enabled = true; api_keys = "sesame" ∷ []; exclude_paths = "/docs" ∷ [] }

abbrev visitor : Request
visitor = record {
  path = "/api/chat";
  x_api_key = some "sesame";
  authorization = none;
  client_host = none;
}

dispatch_iff_example :
    ((dispatch ok guarded visitor ≡ response 200)
      ↔ ((presented_key visitor ≢ "") × (elem (presented_key visitor) guarded.api_keys ≡ true)))
    × ((dispatch ok guarded visitor ≡ http_error 401) ↔ (presented_key visitor ≡ ""))
    × ((dispatch ok guarded visitor ≡ http_error 403)
        ↔ ((presented_key visitor ≢ "") × (elem (presented_key visitor) guarded.api_keys ≡ false)))
dispatch_iff_example = dispatch_iff ok guarded visitor refl inside
  where
    inside : is_excluded visitor.path guarded.exclude_paths ≡ false
    inside = unfold is_excluded in refl

-- The key of the header passes.
passes : dispatch ok guarded visitor ≡ response 200
unfolding dispatch is_excluded presented_key
passes = refl

-- Two requests in ten ticks.
abbrev narrow : RateLimit
narrow = record {
  enabled = true;
  max_requests = 2;
  window_seconds = 10;
  exclude_paths = [];
  buckets = [];
}

abbrev burst : List Event
burst = ("u", 1) ∷ ("v", 2) ∷ ("u", 3) ∷ ("u", 4) ∷ []

burst-Ordered : Ordered 0 burst
burst-Ordered = (omega arith, (omega arith, (omega arith, (omega arith, tt))))

-- The third request of the user is refused.
burst-admitted : admitted "u" burst narrow ≡ 1 ∷ 3 ∷ []
unfolding admitted check_limit bucket lookup insert
burst-admitted = refl

narrow_unseen : bucket "u" narrow ≡ []
unfolding bucket lookup
narrow_unseen = refl

admitted_bounded_example : length (filter (in_window 10 7) (admitted "u" burst narrow)) ≤ 2
admitted_bounded_example = admitted_bounded "u" burst 0 narrow 7 narrow_unseen burst-Ordered
