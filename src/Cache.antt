-- ===== src/Cache.antt =====
-- core/cache/manager.py. Times are readings of `time.monotonic()` in ticks. A method that reads the
-- clock takes the reading as its argument `now`; values are JSON values, and `None` is `null`.
pub mod Entries
pub mod Expiry
pub mod Codec
pub mod Tests
use yellowbullv.Shared.{
  ℕ, ◌+◌, String, Option, none, some, Bool, true, false, List, [], ltb, if◌then◌else◌, length,
}
use yellowbullv.Shared.Json.{Json, null, str}
use yellowbullv.Dict.{Dict, lookup, contains, insert, remove, remove_all, keys_where}

pub record CacheEntry : Type 0 where
  pub value : Json
  pub expires_at : Option ℕ

pub record CacheManager : Type 0 where
  pub store : Dict CacheEntry
  pub default_ttl : Option ℕ

abbrev pub init : Option ℕ → CacheManager
init ttl = record { store = []; default_ttl = ttl }

-- `now > expires_at`, and never without a deadline
unfoldable pub is_expired : ℕ → CacheEntry → Bool
is_expired now e = elim e.expires_at [ none ↦ false | some t ↦ ltb t now ]

-- the part of `get` after the lookup
found : String → ℕ → CacheManager → Option CacheEntry → Json × CacheManager
found k now c none = (null, c)
found k now c (some e) =
    if is_expired now e then (null, record c { store = remove k c.store }) else (e.value, c)

unfoldable pub get : String → ℕ → CacheManager → Json × CacheManager
unfolding found
get k now c = found k now c (lookup k c.store)

-- `ttl if ttl is not None else self._default_ttl`
abbrev pub effective_ttl : Option ℕ → CacheManager → Option ℕ
effective_ttl none c = c.default_ttl
effective_ttl (some t) c = some t

abbrev pub deadline : ℕ → Option ℕ → Option ℕ
deadline now none = none
deadline now (some t) = some (now + t)

unfoldable pub set : String → Json → Option ℕ → ℕ → CacheManager → CacheManager
set k v ttl now c =
    let e : CacheEntry = record { value = v; expires_at = deadline now (effective_ttl ttl c) } in
    record c { store = insert k e c.store }

unfoldable pub delete : String → CacheManager → Bool × CacheManager
delete k c =
    if contains k c.store then (true, record c { store = remove k c.store }) else (false, c)

unfoldable pub clear : CacheManager → ℕ × CacheManager
clear c = (length c.store, record c { store = [] })

abbrev pub size : CacheManager → ℕ
size c = length c.store

-- The clock is read once for each entry: `clock k` is the reading at key `k`.
unfoldable pub cleanup_expired : (String → ℕ) → CacheManager → ℕ × CacheManager
cleanup_expired clock c =
    let gone = keys_where (λ k e. is_expired (clock k) e) c.store in
    (length gone, record c { store = remove_all gone c.store })

-- `json.loads` gives `none` where it raises `JSONDecodeError`.
unfoldable pub decoded : (String → Option Json) → Json → Json
decoded loads (str raw) = elim (loads raw) [ none ↦ str raw | some v ↦ v ]
decoded loads v = v

unfoldable pub get_json : (String → Option Json) → String → ℕ → CacheManager → Json × CacheManager
unfolding decoded
get_json loads k now c = let (raw, c') = get k now c in (decoded loads raw, c')

unfoldable pub set_json :
    (Json → String) → String → Json → Option ℕ → ℕ → CacheManager → CacheManager
set_json dumps k v ttl now c = set k (str (dumps v)) ttl now c
