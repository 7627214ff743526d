-- ===== src/Cache/Codec.antt =====
-- The JSON helpers of the cache.
use yellowbullv.Shared.{ℕ, String, ◌≡◌, Option, some, arith, str_eq_refl}
use yellowbullv.Shared.Json.{Json, str}
use yellowbullv.Cache.{CacheManager, effective_ttl, get_json, set_json}
use yellowbullv.Cache.Expiry.{readable, get-set}

-- Where the decoder undoes the encoder at `v`, `get_json` after `set_json` of the same key answers
-- `v` as long as the entry is readable, and `None` after that.
pub get_json-set_json :
    (dumps : Json → String) (loads : String → Option Json) (k : String) (v : Json) (ttl : Option ℕ)
    (from now : ℕ) (c : CacheManager)
    → loads (dumps v) ≡ some v
    → (get_json loads k now (set_json dumps k v ttl from c)).0
      ≡ readable (effective_ttl ttl c) from now v
unfolding get_json set_json
get_json-set_json dumps loads k v ttl from now c h =
    ground (arith, get-set k k (str (dumps v)) ttl from now c, str_eq_refl k)
