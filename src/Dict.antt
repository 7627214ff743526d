-- ===== src/Dict.antt =====
-- Python's `dict` with text keys, as an association list in insertion order: writing to a key that
-- is there keeps its place.
pub mod Laws
pub mod Sizes
use yellowbullv.Shared.{
  ℕ, String, Option, none, some, Bool, List, [], ◌∷◌, map, str_eq, if◌then◌else◌, length, is_some,
}

abbrev pub Dict {ℓ} : Type ℓ → Type ℓ
Dict V = List (String × V)

module _ {ℓ} {V : Type ℓ} where
  -- `d.get(k)`
  unfoldable pub lookup : String → Dict V → Option V
  lookup k [] = none
  lookup k ((j, v) ∷ d) = if str_eq j k then some v else lookup k d

  -- `k in d`
  abbrev pub contains : String → Dict V → Bool
  contains k d = is_some (lookup k d)

  -- `d[k] = v`
  unfoldable pub insert : String → V → Dict V → Dict V
  insert k v [] = (k, v) ∷ []
  insert k v ((j, w) ∷ d) = if str_eq j k then (j, v) ∷ d else (j, w) ∷ insert k v d

  -- `d.pop(k, None)`, `del d[k]`
  unfoldable pub remove : String → Dict V → Dict V
  remove k [] = []
  remove k ((j, w) ∷ d) = let rest = remove k d in if str_eq j k then rest else (j, w) ∷ rest

  -- `for k in ks: del d[k]`
  unfoldable pub remove_all : List String → Dict V → Dict V
  unfolding remove
  remove_all [] d = d
  remove_all (k ∷ ks) d = remove_all ks (remove k d)

  -- `list(d.keys())`
  abbrev pub keys : Dict V → List String
  keys d = map (λ e. e.0) d

  -- `list(d.values())`
  abbrev pub values : Dict V → List V
  values d = map (λ e. e.1) d

  -- `[k for k, v in d.items() if p(k, v)]`
  unfoldable pub keys_where : (String → V → Bool) → Dict V → List String
  keys_where p [] = []
  keys_where p ((k, v) ∷ d) = if p k v then k ∷ keys_where p d else keys_where p d
