-- ===== src/Cache/Entries.antt =====
-- core/cache/manager.py: the store under the cache's operations, and what a reader sees of it.
use yellowbullv.Shared.{ℕ, String, ◌≡◌, Option, none, some, true, false, arith, if◌then◌else◌, ltb}
use yellowbullv.Shared.Json.{Json, null}
use yellowbullv.Dict.{lookup}
use yellowbullv.Dict.Laws.{IsDistinct, insert-IsDistinct, remove-IsDistinct, remove_all-IsDistinct}
use yellowbullv.Cache.{
  CacheEntry, CacheManager, init, is_expired, get, set, delete, clear, cleanup_expired,
}

-- What a reader is entitled to: the value of an entry that has not expired.
abbrev pub live : ℕ → Option CacheEntry → Json
live now none = null
live now (some e) = if is_expired now e then null else e.value

pub get-live :
    (k : String) (now : ℕ) (c : CacheManager) → (get k now c).0 ≡ live now (lookup k c.store)
unfolding get
get-live k now c = ground arith

pub is_expired_later :
    (e : CacheEntry) (now later : ℕ)
    → is_expired now e ≡ true
    → ltb later now ≡ false
    → is_expired later e ≡ true
unfolding is_expired
is_expired_later e now later h le = ground arith

-- One call of a method, with the readings of the clock and the arguments left open.
pub data Step (c : CacheManager) : CacheManager → Type 0 where
  gets : (k : String) (now : ℕ) → Step c (get k now c).1
  sets : (k : String) (v : Json) (ttl : Option ℕ) (now : ℕ) → Step c (set k v ttl now c)
  deletes : (k : String) → Step c (delete k c).1
  clears : Step c (clear c).1
  cleans : (clock : String → ℕ) → Step c (cleanup_expired clock c).1

pub data Reach (c : CacheManager) : CacheManager → Type 0 where
  here : Reach c c
  next : {d e : CacheManager} → Reach c d → Step d e → Reach c e

get-IsDistinct :
    (k : String) (now : ℕ) (c : CacheManager)
    → IsDistinct c.store
    → IsDistinct (get k now c).1.store
unfolding get
get-IsDistinct k now c h = ground (arith, remove-IsDistinct k c.store h)

delete-IsDistinct :
    (k : String) (c : CacheManager) → IsDistinct c.store → IsDistinct (delete k c).1.store
unfolding delete
delete-IsDistinct k c h = ground (arith, remove-IsDistinct k c.store h)

pub Step-IsDistinct : {c d : CacheManager} → Step c d → IsDistinct c.store → IsDistinct d.store
unfolding set clear cleanup_expired
Step-IsDistinct {c} (gets k now) h = get-IsDistinct k now c h
Step-IsDistinct {c} (sets k v ttl now) h = insert-IsDistinct k _ c.store h
Step-IsDistinct {c} (deletes k) h = delete-IsDistinct k c h
Step-IsDistinct clears h = tt
Step-IsDistinct {c} (cleans clock) h = remove_all-IsDistinct _ c.store h

-- However the methods are called, and whatever the clock reads, a cache that starts empty never
-- holds two entries under one key.
pub Reach-IsDistinct : (ttl : Option ℕ) {c : CacheManager} → Reach (init ttl) c → IsDistinct c.store
Reach-IsDistinct ttl here = tt
Reach-IsDistinct ttl (next r s) = Step-IsDistinct s (Reach-IsDistinct ttl r)
