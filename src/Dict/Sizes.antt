-- ===== src/Dict/Sizes.antt =====
-- How many entries an operation on a dictionary leaves.
use yellowbullv.Shared.{
  ◌+◌, String, ◌≡◌, refl, none, some, Bool, [], ◌∷◌, arith, str_eq_iff, str_eq_refl, if◌then◌else◌,
  length,
}
use yellowbullv.Dict.{Dict, lookup, remove, remove_all, keys_where}
use yellowbullv.Dict.Laws.{IsDistinct}

module _ {ℓ} {V : Type ℓ} where
  pub remove_absent : (k : String) (d : Dict V) → lookup k d ≡ none → remove k d ≡ d
  unfolding lookup remove
  remove_absent k [] h = refl
  remove_absent k ((j, w) ∷ d) h = ground (arith, remove_absent k d)

  pub length-remove :
      (k : String) (v : V) (d : Dict V)
      → IsDistinct d
      → lookup k d ≡ some v
      → length (remove k d) + 1 ≡ length d
  unfolding lookup remove
  length-remove k v [] h e = absurd (ground arith)
  length-remove k v ((j, w) ∷ d) (p, h) e =
      ground (arith, length-remove k v d h, remove_absent k d, str_eq_iff j k)

  -- the entries that fail a test
  keep : (String → V → Bool) → Dict V → Dict V
  keep p [] = []
  keep p ((k, v) ∷ d) = if p k v then keep p d else (k, v) ∷ keep p d

  lookup-keep_absent :
      (p : String → V → Bool) (j : String) (d : Dict V)
      → lookup j d ≡ none
      → lookup j (keep p d) ≡ none
  unfolding lookup keep
  lookup-keep_absent p j [] h = refl
  lookup-keep_absent p j ((k, v) ∷ d) h = ground (arith, lookup-keep_absent p j d)

  -- A key at the head that is not to be removed stays at the head.
  remove_all-cons :
      (p : String → V → Bool) (k : String) (v : V) (d e : Dict V)
      → lookup k d ≡ none
      → remove_all (keys_where p d) ((k, v) ∷ e) ≡ (k, v) ∷ remove_all (keys_where p d) e
  unfolding remove_all keys_where lookup
  remove_all-cons p k v [] e h = refl
  remove_all-cons p k v ((j, w) ∷ d) e h = ground (
    arith,
    remove_all-cons p k v d e,
    remove_all-cons p k v d (remove j e),
    str_eq_iff j k,
    str_eq_iff k j,
  )

  remove_all-keep :
      (p : String → V → Bool) (d : Dict V) → IsDistinct d → remove_all (keys_where p d) d ≡ keep p d
  unfolding remove_all keys_where keep
  remove_all-keep p [] h = refl
  remove_all-keep p ((k, v) ∷ d) (q, h) = ground (
    arith,
    remove_all-keep p d h,
    remove_all-cons p k v d d q,
    remove_absent k d q,
    str_eq_refl k,
  )

  length-keep :
      (p : String → V → Bool) (d : Dict V) → length (keep p d) + length (keys_where p d) ≡ length d
  unfolding keep keys_where
  length-keep p [] = omega arith
  length-keep p ((k, v) ∷ d) = ground (arith, length-keep p d)

  -- Removing the keys that pass a test removes as many entries.
  pub length-remove_all :
      (p : String → V → Bool) (d : Dict V)
      → IsDistinct d
      → length (remove_all (keys_where p d) d) + length (keys_where p d) ≡ length d
  length-remove_all p d h = rw (remove_all-keep p d h) (length-keep p d)
