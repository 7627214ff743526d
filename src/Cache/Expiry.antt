-- ===== src/Cache/Expiry.antt =====
-- core/cache/manager.py: the time to live, in what `set` makes readable and in what is dropped.
use yellowbullv.Shared.{
  ℕ, ◌+◌, ◌≤◌, String, ◌≡◌, Option, none, some, Bool, true, false, arith, str_eq, str_eq_iff,
  if◌then◌else◌, leb, Option-cases, inl, inr,
}
use yellowbullv.Shared.Json.{Json, null}
use yellowbullv.Dict.{lookup, keys_where}
use yellowbullv.Dict.Laws.{
  lookup-insert, lookup-remove, lookup-remove_all, elem-keys_where, IsDistinct,
}
use yellowbullv.Dict.Sizes.{length-remove_all}
use yellowbullv.Cache.{
  CacheEntry, CacheManager, is_expired, effective_ttl, get, set, cleanup_expired, size, delete,
}
use yellowbullv.Cache.Entries.{get-live, is_expired_later}

-- The value as long as its time to live, if it has one, has not run out since `from`.
abbrev pub readable : Option ℕ → ℕ → ℕ → Json → Json
readable none from now v = v
readable (some ttl) from now v = if leb now (from + ttl) then v else null

-- After `set`, `get` of the key at time `now` answers the value exactly while `now` is at most the
-- time of the write plus the time to live (the default where none is given, for ever where there
-- is no default), and `None` from then on; `get` of any other key answers what it did before.
pub get-set :
    (k j : String) (v : Json) (ttl : Option ℕ) (from now : ℕ) (c : CacheManager)
    → (get j now (set k v ttl from c)).0
      ≡ (if str_eq k j then readable (effective_ttl ttl c) from now v else (get j now c).0)
unfolding set is_expired
get-set k j v ttl from now c =
    rw (get-live j now c, get-live j now (set k v ttl from c), lookup-insert)
      (ground (arith, str_eq_iff k j))

-- A `get`, which may drop the entry that it finds expired, is invisible to every later `get` of
-- any key.
pub get-get :
    (k j : String) (now later : ℕ) (c : CacheManager)
    → now ≤ later
    → (get j later (get k now c).1).0 ≡ (get j later c).0
unfolding get
get-get k j now later c h = elim (Option-cases (lookup k c.store)) [
  | inl e ↦ ground arith
  | inr (a, e) ↦
      ground (arith, lookup-remove k j c.store, str_eq_iff k j, is_expired_later a now later)
]

lookup-cleanup :
    (clock : String → ℕ) (j : String) (c : CacheManager)
    → IsDistinct c.store
    → (e : CacheEntry) → lookup j c.store ≡ some e
    → lookup j (cleanup_expired clock c).1.store ≡ (if is_expired (clock j) e then none else some e)
unfolding cleanup_expired
lookup-cleanup clock j c d e h =
    let p : String → CacheEntry → Bool = λ k x. is_expired (clock k) x in
    ground
      (arith, lookup-remove_all (keys_where p c.store) j c.store, elem-keys_where p j c.store d)

lookup-cleanup_absent :
    (clock : String → ℕ) (j : String) (c : CacheManager)
    → lookup j c.store ≡ none
    → lookup j (cleanup_expired clock c).1.store ≡ none
unfolding cleanup_expired
lookup-cleanup_absent clock j c h =
    let p : String → CacheEntry → Bool = λ k x. is_expired (clock k) x in
    ground (arith, lookup-remove_all (keys_where p c.store) j c.store)

-- On a store with distinct keys `cleanup_expired` is invisible to a `get` of any key at a time no
-- earlier than the clock read at the key's entry, and the count that it returns is the number of
-- entries that are gone.
pub get-cleanup_expired :
    (clock : String → ℕ) (j : String) (later : ℕ) (c : CacheManager)
    → IsDistinct c.store
    → clock j ≤ later
    → ((get j later (cleanup_expired clock c).1).0 ≡ (get j later c).0)
      × (size (cleanup_expired clock c).1 + (cleanup_expired clock c).0 ≡ size c)
get-cleanup_expired clock j later c d h = (same, counted)
  where
    same : (get j later (cleanup_expired clock c).1).0 ≡ (get j later c).0
    same =
        rw (get-live j later c, get-live j later (cleanup_expired clock c).1)
          (elim (Option-cases (lookup j c.store)) [
            | inl e ↦ ground (arith, lookup-cleanup_absent clock j c e)
            | inr (a, e) ↦
                ground (arith, lookup-cleanup clock j c d a e, is_expired_later a (clock j) later)
          ])

    counted : size (cleanup_expired clock c).1 + (cleanup_expired clock c).0 ≡ size c
    counted = unfold cleanup_expired in length-remove_all (λ k x. is_expired (clock k) x) c.store d

-- After `delete` of a key, `get` of it answers `None`, at any time, and `get` of any other key
-- answers what it did before; `delete` reports whether there was an entry, expired or not.
pub get-delete :
    (k j : String) (now : ℕ) (c : CacheManager)
    → ((get j now (delete k c).1).0 ≡ (if str_eq k j then null else (get j now c).0))
      × ((delete k c).0 ≡ elim (lookup k c.store) [ none ↦ false | some _ ↦ true ])
unfolding delete
get-delete k j now c = (
  rw (get-live j now c, get-live j now (delete k c).1)
      (ground (arith, lookup-remove k j c.store, str_eq_iff k j)),
  ground arith,
)
