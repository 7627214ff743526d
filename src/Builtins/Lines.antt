-- ===== src/Builtins/Lines.antt =====
-- What the file tools use of `str` and of text files: `splitlines(keepends=True)`, `rstrip()`, slices
-- with an `int` end, universal newlines, and the size of a text in UTF-8.
use yellowbullv.Shared.{
  ℕ, suc, ◌+◌, ◌-◌, String, ◌≡◌, refl, ap, ◌∙◌, Option, none, some, Bool, false, not, ◌&&◌, ◌||◌,
  List, [], ◌∷◌, ◌++◌, arith, length, take, drop, ltb, leb, ◌==◌, if◌then◌else◌, cat, concat,
  is_empty, is_space, show_nat, Bool-cases, inl, inr,
}
use yellowbullv.Shared.Json.{ℤ, pos, negsuc}
use text.Mathlib.TextLemmas
use Prim.Native.Char.{Char, code}

-- `str(i)`
unfoldable pub show_int : ℤ → String
show_int (pos n) = show_nat n
show_int (negsuc n) = cat "-" (show_nat (suc n))

-- The code points that end a line for `splitlines`.
unfoldable pub is_break : ℕ → Bool
is_break c = (leb 10 c && leb c 13) || (leb 28 c && leb c 30) || c == 133 || c == 8232 || c == 8233

abbrev pub starts_line_feed : String → Bool
starts_line_feed String.[] = false
starts_line_feed (String.◌∷◌ c s) = code c == 10

-- One more character at the front of the first line.
abbrev pub prepend : String → List String → List String
prepend c [] = c ∷ []
prepend c (l ∷ ls) = cat c l ∷ ls

-- `s.splitlines(keepends=True)`: a carriage return and the line feed behind it end one line together.
unfoldable pub split_lines : String → List String
unfolding is_break
split_lines String.[] = []
split_lines (String.◌∷◌ c s) =
    let rest = split_lines s in
    let one = String.◌∷◌ c String.[] in
    if is_break (code c) && not (code c == 13 && starts_line_feed s)
    then one ∷ rest
    else prepend one rest

-- `s.rstrip()`
unfoldable pub rstrip : String → String
rstrip String.[] = String.[]
rstrip (String.◌∷◌ c s) =
    let rest = rstrip s in
    if is_empty rest && is_space (code c) then String.[] else String.◌∷◌ c rest

-- What reading a text file makes of its line ends: each of "\r\n" and "\r" becomes "\n".
unfoldable pub newlines : String → String
newlines String.[] = String.[]
newlines (String.◌∷◌ c s) =
    let rest = newlines s in
    if code c == 13 then (if starts_line_feed s then rest else cat "\n" rest) else String.◌∷◌ c rest

-- The bytes of a code point in UTF-8, and of a text.
abbrev pub char_size : ℕ → ℕ
char_size c = if ltb c 128 then 1 else if ltb c 2048 then 2 else if ltb c 65536 then 3 else 4

unfoldable pub utf8_size : String → ℕ
utf8_size String.[] = 0
utf8_size (String.◌∷◌ c s) = char_size (code c) + utf8_size s

-- The index at which a slice of a list of `n` elements stops.
abbrev pub stop_index : Option ℤ → ℕ → ℕ
stop_index none n = n
stop_index (some (pos i)) n = i
stop_index (some (negsuc i)) n = n - suc i

-- `xs[i:end]`
unfoldable pub slice {ℓ} : {A : Type ℓ} → ℕ → Option ℤ → List A → List A
slice i end xs = drop i (take (stop_index end (length xs)) xs)

zero_add : (n : ℕ) → 0 + n ≡ n
zero_add n = omega arith

suc_add : (m n : ℕ) → suc m + n ≡ suc (m + n)
suc_add m n = omega arith

concat-prepend : (c : String) (ls : List String) → concat (prepend c ls) ≡ cat c (concat ls)
concat-prepend c [] = refl
concat-prepend c (l ∷ ls) = TextLemmas.append_assoc c l (concat ls)

cat_one : (c : Char) (s : String) → cat (String.◌∷◌ c String.[]) s ≡ String.◌∷◌ c s
cat_one c s = TextLemmas.cons-append c String.[] s ∙ ap (String.◌∷◌ c) (TextLemmas.nil-append s)

-- Nothing is lost between the lines of a text.
pub concat-split_lines : (s : String) → concat (split_lines s) ≡ s
unfolding split_lines
concat-split_lines String.[] = refl
concat-split_lines (String.◌∷◌ c s) =
    let one = String.◌∷◌ c String.[] in
    let whole = ap (cat one) (concat-split_lines s) ∙ cat_one c s in
    elim (Bool-cases (is_break (code c) && not (code c == 13 && starts_line_feed s))) [
      | inl e ↦ rw e whole
      | inr e ↦ rw e (concat-prepend one (split_lines s) ∙ whole)
    ]

module _ {ℓ} {A : Type ℓ} where
  take_all : (xs : List A) → take (length xs) xs ≡ xs
  take_all [] = refl
  take_all (x ∷ xs) = ap (◌∷◌ x) (take_all xs)

  pub slice_whole : (xs : List A) → slice 0 none xs ≡ xs
  unfolding slice
  slice_whole xs = take_all xs

  take_part : (xs ys : List A) → take (length xs) (xs ++ ys) ≡ xs
  take_part [] ys = refl
  take_part (x ∷ xs) ys = ap (◌∷◌ x) (take_part xs ys)

  drop-take :
      (n : ℕ) (xs ys : List A) → drop (length xs) (take (length xs + n) (xs ++ ys)) ≡ take n ys
  drop-take n [] ys = ap (λ k. take k ys) (zero_add n)
  drop-take n (x ∷ xs) ys =
      ap (λ k. drop (length (x ∷ xs)) (take k (x ∷ xs ++ ys))) (suc_add (length xs) n)
      ∙ drop-take n xs ys

  -- The middle part of a list, by the indices at which it starts and stops.
  pub slice_middle :
      (xs ys zs : List A)
      → slice (length xs) (some (pos (length xs + length ys))) (xs ++ (ys ++ zs)) ≡ ys
  unfolding slice
  slice_middle xs ys zs = drop-take (length ys) xs (ys ++ zs) ∙ take_part ys zs

lines_example : split_lines "a\r\nb\n\nc" ≡ "a\r\n" ∷ "b\n" ∷ "\n" ∷ "c" ∷ []
unfolding split_lines
lines_example = refl
