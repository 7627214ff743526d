-- ===== src/Shared/Text.antt =====
-- Texts: comparison, length, joining and decimal printing, as the source's f-strings use them.
use Prim.Native.Nat.{ℕ, zero, suc, ◌-◌, ◌/◌, ◌%◌}
use Prim.Native.String
use Prim.Native.String.{String}
use mathlib.Core.Path.{◌≡◌, refl}
use mathlib.Core.Bool.{Bool, true, false, ◌&&◌, ◌||◌}
use mathlib.Core.Option.{Option, none, some}
use mathlib.Core.List.{List, [], ◌∷◌}
use mathlib.Core.Logic.{◌↔◌}
use text.Mathlib.Text
use text.Mathlib.TextEquality
use text.Mathlib.TextPositions
use Prim.Native.Char.{code}
use yellowbullv.Shared.Tests.{ltb, leb, ◌==◌, if◌then◌else◌}

-- `s == t` on `str`
abbrev pub str_eq : String → String → Bool
str_eq s t = Text.◌==◌ s t

pub str_eq_iff : (s t : String) → (str_eq s t ≡ true) ↔ (s ≡ t)
str_eq_iff s t = TextEquality.eq_iff s t

pub str_eq_refl : (s : String) → str_eq s s ≡ true
str_eq_refl s = TextPositions.eq_refl s

-- `not s`
abbrev pub is_empty : String → Bool
is_empty s = str_eq s ""

-- `s or d`
abbrev pub str_or : String → String → String
str_or s d = if is_empty s then d else s

-- `x or ""` for a text that may be `None`
abbrev pub or_empty : Option String → String
or_empty none = ""
or_empty (some s) = s

-- `s.startswith(t)`
abbrev pub starts_with : String → String → Bool
starts_with s t = Text.starts_with s t

-- `s + t`
abbrev pub cat : String → String → String
cat s t = String.◌++◌ s t

-- the number of characters, `len(s)`
abbrev pub str_length : String → ℕ
str_length s = String.count s

-- the parts of an f-string
abbrev pub concat : List String → String
concat [] = ""
concat (s ∷ ss) = cat s (concat ss)

-- `sep.join(parts)`
abbrev pub join : String → List String → String
join sep [] = ""
join sep (s ∷ []) = s
join sep (s ∷ t ∷ ss) = cat s (cat sep (join sep (t ∷ ss)))

digit : ℕ → String
digit zero = "0"
digit (suc zero) = "1"
digit (suc (suc zero)) = "2"
digit (suc (suc (suc zero))) = "3"
digit (suc (suc (suc (suc zero)))) = "4"
digit (suc (suc (suc (suc (suc zero))))) = "5"
digit (suc (suc (suc (suc (suc (suc zero)))))) = "6"
digit (suc (suc (suc (suc (suc (suc (suc zero))))))) = "7"
digit (suc (suc (suc (suc (suc (suc (suc (suc zero)))))))) = "8"
digit (suc (suc (suc (suc (suc (suc (suc (suc (suc _))))))))) = "9"

decimal : ℕ → ℕ → String
decimal zero n = ""
decimal (suc fuel) n =
    let front = decimal fuel (n / 10) in if ltb n 10 then digit n else cat front (digit (n % 10))

-- `str(n)`: a number has fewer digits than its value plus two, so the fuel is enough.
unfoldable pub show_nat : ℕ → String
unfolding digit decimal
show_nat n = decimal (suc n) n

show_example : show_nat 4096 ≡ "4096"
unfolding show_nat
show_example = refl

-- `s.replace(pat, "")`: `skip` characters of an occurrence are still to be left out.
erase_from : String → ℕ → String → String
erase_from pat skip String.[] = String.[]
erase_from pat (suc skip) (String.◌∷◌ c s) = erase_from pat skip s
erase_from pat zero (String.◌∷◌ c s) =
    let inside = erase_from pat (String.count pat - 1) s in
    let outside = String.◌∷◌ c (erase_from pat zero s) in
    if Text.starts_with (String.◌∷◌ c s) pat then inside else outside

unfoldable pub erase_text : String → String → String
unfolding erase_from
erase_text pat s = erase_from pat 0 s

erase_example : erase_text "Bearer " "Bearer key" ≡ "key"
unfolding erase_text
erase_example = refl

-- `s[:n]`
abbrev pub take_text : ℕ → String → String
take_text n String.[] = String.[]
take_text zero (String.◌∷◌ c s) = String.[]
take_text (suc n) (String.◌∷◌ c s) = String.◌∷◌ c (take_text n s)

-- The code points that `str.isspace` accepts.
abbrev pub is_space : ℕ → Bool
is_space c =
    (leb 9 c && leb c 13)
    || (leb 28 c && leb c 32)
    || c == 133
    || c == 160
    || c == 5760
    || (leb 8192 c && leb c 8202)
    || c == 8232
    || c == 8233
    || c == 8239
    || c == 8287
    || c == 12288

-- A word that is complete, unless it is empty, in front of the words to come.
flush : String → List String → List String
flush word rest = if str_eq word "" then rest else word ∷ rest

split_from : String → String → List String
split_from word String.[] = flush word []
split_from word (String.◌∷◌ c s) =
    let ends = flush word (split_from "" s) in
    let longer = split_from (String.◌++◌ word (String.◌∷◌ c String.[])) s in
    if is_space (code c) then ends else longer

-- `s.split()`
unfoldable pub split_words : String → List String
unfolding split_from flush
split_words s = split_from "" s

split_example : split_words "  go  on " ≡ "go" ∷ "on" ∷ []
unfolding split_words
split_example = refl

-- `any(lo <= c <= hi for c in s)`
abbrev pub any_between : ℕ → ℕ → String → Bool
any_between lo hi String.[] = false
any_between lo hi (String.◌∷◌ c s) = (leb lo (code c) && leb (code c) hi) || any_between lo hi s
