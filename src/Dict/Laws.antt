-- ===== src/Dict/Laws.antt =====
-- Laws of dictionaries: what a lookup finds after each operation, and distinct keys.
use yellowbullv.Shared.{
  ◌+◌, String, ◌≡◌, refl, Option, none, some, Bool, false, List, [], ◌∷◌, ◌||◌, arith, str_eq,
  str_eq_iff, str_eq_refl, if◌then◌else◌, length,
}
use yellowbullv.Dict.{Dict, lookup, contains, insert, remove, remove_all, keys_where}

-- `k in ks`
abbrev pub elem : String → List String → Bool
elem k [] = false
elem k (j ∷ ks) = str_eq j k || elem k ks

module _ {ℓ} {V : Type ℓ} where
  pub lookup-insert :
      (k j : String) (v : V) (d : Dict V)
      → lookup j (insert k v d) ≡ (if str_eq k j then some v else lookup j d)
  unfolding lookup insert
  lookup-insert k j v [] = refl
  lookup-insert k j v ((i, w) ∷ d) =
      ground (arith, str_eq_iff k j, str_eq_iff i k, str_eq_iff i j, lookup-insert k j v d)

  pub lookup-insert_self : (k : String) (v : V) (d : Dict V) → lookup k (insert k v d) ≡ some v
  lookup-insert_self k v d = simp (lookup-insert, str_eq_refl)

  pub lookup-remove :
      (k j : String) (d : Dict V)
      → lookup j (remove k d) ≡ (if str_eq k j then none else lookup j d)
  unfolding lookup remove
  lookup-remove k j [] = ground arith
  lookup-remove k j ((i, w) ∷ d) =
      ground (arith, lookup-remove k j d, str_eq_iff i k, str_eq_iff i j, str_eq_iff k j)

  -- No key occurs twice.
  abbrev pub IsDistinct : Dict V → Type ℓ
  IsDistinct [] = Unit
  IsDistinct ((k, v) ∷ d) = (lookup k d ≡ none) × IsDistinct d

  pub insert-IsDistinct :
      (k : String) (v : V) (d : Dict V) → IsDistinct d → IsDistinct (insert k v d)
  unfolding lookup insert
  insert-IsDistinct k v [] h = ground arith
  insert-IsDistinct k v ((j, w) ∷ d) (p, h) =
      ground
        (arith, lookup-insert k j v d, str_eq_iff j k, str_eq_iff k j, insert-IsDistinct k v d h)

  pub remove-IsDistinct : (k : String) (d : Dict V) → IsDistinct d → IsDistinct (remove k d)
  unfolding lookup remove
  remove-IsDistinct k [] h = ground arith
  remove-IsDistinct k ((j, w) ∷ d) (p, h) =
      ground (arith, lookup-remove k j d, remove-IsDistinct k d h)

  pub remove_all-IsDistinct :
      (ks : List String) (d : Dict V) → IsDistinct d → IsDistinct (remove_all ks d)
  unfolding remove_all
  remove_all-IsDistinct [] d h = h
  remove_all-IsDistinct (k ∷ ks) d h =
      remove_all-IsDistinct ks (remove k d) (remove-IsDistinct k d h)

  pub lookup-remove_all :
      (ks : List String) (j : String) (d : Dict V)
      → lookup j (remove_all ks d) ≡ (if elem j ks then none else lookup j d)
  unfolding remove_all
  lookup-remove_all [] j d = refl
  lookup-remove_all (k ∷ ks) j d =
      ground (arith, lookup-remove_all ks j (remove k d), lookup-remove k j d)

  -- whether a found value passes a test
  abbrev pub passes : (String → V → Bool) → String → Option V → Bool
  passes p k none = false
  passes p k (some v) = p k v

  elem-keys_where_absent :
      (p : String → V → Bool) (j : String) (d : Dict V)
      → lookup j d ≡ none
      → elem j (keys_where p d) ≡ false
  unfolding lookup keys_where
  elem-keys_where_absent p j [] h = refl
  elem-keys_where_absent p j ((k, v) ∷ d) h = ground (arith, elem-keys_where_absent p j d)

  pub elem-keys_where :
      (p : String → V → Bool) (j : String) (d : Dict V)
      → IsDistinct d
      → elem j (keys_where p d) ≡ passes p j (lookup j d)
  unfolding lookup keys_where
  elem-keys_where p j [] h = refl
  elem-keys_where p j ((k, v) ∷ d) (q, h) =
      ground (arith, elem-keys_where p j d h, elem-keys_where_absent p j d, str_eq_iff k j)

  pub length-insert :
      (k : String) (v : V) (d : Dict V)
      → length (insert k v d) ≡ (if contains k d then length d else length d + 1)
  unfolding lookup insert
  length-insert k v [] = omega arith
  length-insert k v ((j, w) ∷ d) = ground (arith, length-insert k v d)

pub ruleset dict_laws = (lookup-insert, lookup-remove)
