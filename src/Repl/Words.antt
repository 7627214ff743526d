-- ===== src/Repl/Words.antt =====
-- What the command line uses of `str`: `strip()`, and the parts of `split(maxsplit=1)`.
use yellowbullv.Shared.{String, ◌≡◌, refl, [], ◌∷◌, if◌then◌else◌, is_space, split_words}
use Prim.Native.Char.{code}
use yellowbullv.Builtins.Lines.{rstrip}

-- `s.lstrip()`
unfoldable pub lstrip : String → String
lstrip String.[] = String.[]
lstrip (String.◌∷◌ c s) = let rest = lstrip s in if is_space (code c) then rest else String.◌∷◌ c s

-- `s.strip()`
unfoldable pub strip : String → String
unfolding lstrip rstrip
strip s = rstrip (lstrip s)

-- What stands behind the first word of a text that begins with one.
unfoldable pub behind_word : String → String
unfolding lstrip
behind_word String.[] = String.[]
behind_word (String.◌∷◌ c s) =
    let rest = behind_word s in if is_space (code c) then lstrip s else rest

-- `text.split()[0]`
unfoldable pub first_word : String → String
unfolding split_words
first_word s = elim (split_words s) [ [] ↦ "" | w ∷ ws ↦ w ]

words_example :
    (first_word "/workdir  /tmp/a b" ≡ "/workdir") × (behind_word "/workdir  /tmp/a b" ≡ "/tmp/a b")
unfolding first_word behind_word
words_example = (refl, refl)
