-- ===== src/Cache/Tests.antt =====
-- The cache on concrete stores.
use yellowbullv.Shared.{◌≡◌, refl, none, some, [], ◌∷◌}
use yellowbullv.Shared.Json.{str, null}
use yellowbullv.Dict.{lookup, insert}
use yellowbullv.Dict.Laws.{IsDistinct}
use yellowbullv.Cache.{CacheManager, init, get, set, is_expired, cleanup_expired}
use yellowbullv.Cache.Expiry.{get-set}

-- Entries "a", until 12, and "b", for ever.
abbrev two : CacheManager
two = record {
  store =
      ("a", record { value = str "x"; expires_at = some 12 })
      ∷ ("b", record { value = str "y"; expires_at = none })
      ∷ [];
  default_ttl = some 5;
}

get-set_example : (get "a" 15 (set "a" (str "z") none 10 two)).0 ≡ str "z"
get-set_example = get-set "a" "a" (str "z") none 10 15 two

get-set_late : (get "a" 16 (set "a" (str "z") none 10 two)).0 ≡ null
unfolding get lookup set insert is_expired
get-set_late = refl

two-IsDistinct : IsDistinct two.store
unfolding lookup
two-IsDistinct = (refl, (refl, tt))

abbrev reached : CacheManager
reached = (cleanup_expired (λ k. 9) (set "a" null (some 3) 4 (init none))).1

-- A codec of one value.
