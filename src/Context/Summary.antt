-- ===== src/Context/Summary.antt =====
-- core/context_builder.py: the loop that cuts the summary of old turns down.
use yellowbullv.Shared.{
  ℕ, zero, suc, ◌-◌, ◌≤◌, ◌≡◌, refl, sym, ap, ◌∙◌, min, String, Bool, true, false, ◌⊎◌, inl, inr,
  ◌&&◌, arith, ltb, str_length, take_text, if◌then◌else◌, Bool-cases,
}
use text.Mathlib.TextLemmas.{length-nil, length-cons}
use yellowbullv.Context.{Tools, count_tokens, cut_down}

-- A text that the loop leaves: within the budget, or no longer than 50 characters.
abbrev pub Fits : Tools → ℕ → String → Type 0
Fits tools budget s = (count_tokens tools s ≤ budget) ⊎ (str_length s ≤ 50)

str_length-take_text : (n : ℕ) (s : String) → str_length (take_text n s) ≡ min n (str_length s)
str_length-take_text n String.[] = rw length-nil (omega arith)
str_length-take_text zero (String.◌∷◌ c s) = rw length-nil (omega arith)
str_length-take_text (suc n) (String.◌∷◌ c s) =
    rw (length-cons c s, length-cons c (take_text n s)) (omega (arith, str_length-take_text n s))

take_text-take_text : (m n : ℕ) (s : String) → take_text m (take_text n s) ≡ take_text (min m n) s
take_text-take_text m n String.[] = refl
take_text-take_text zero zero (String.◌∷◌ c s) = refl
take_text-take_text (suc m) zero (String.◌∷◌ c s) = let e : min (suc m) 0 ≡ 0 = omega arith in rw e
take_text-take_text zero (suc n) (String.◌∷◌ c s) = let e : min 0 (suc n) ≡ 0 = omega arith in rw e
take_text-take_text (suc m) (suc n) (String.◌∷◌ c s) =
    let e : min (suc m) (suc n) ≡ suc (min m n) = omega arith in
    rw e (ap (String.◌∷◌ c) (take_text-take_text m n s))

take_text-all : (s : String) → take_text (str_length s) s ≡ s
take_text-all String.[] = refl
take_text-all (String.◌∷◌ c s) = rw (length-cons c s) (ap (String.◌∷◌ c) (take_text-all s))

Fits-of :
    (tools : Tools) (budget : ℕ) (s : String)
    → (ltb budget (count_tokens tools s) && ltb 50 (str_length s)) ≡ false
    → Fits tools budget s
Fits-of tools budget s e = elim (Bool-cases (ltb budget (count_tokens tools s))) [
  | inl over ↦ inr (ground arith)
  | inr within ↦ inl (ground arith)
]

-- What the loop makes of a text: a beginning of it that fits.
abbrev pub IsCut : Tools → ℕ → String → String → Type 0
IsCut tools budget s result = Fits tools budget result × ((k : ℕ) × (result ≡ take_text k s))

IsCut-shorter :
    (tools : Tools) (budget n : ℕ) (s result : String)
    → IsCut tools budget (take_text n s) result
    → IsCut tools budget s result
IsCut-shorter tools budget n s result (fits, (k, e)) =
    (fits, (min k n, e ∙ take_text-take_text k n s))

cut_down_lem :
    (tools : Tools) (fuel budget : ℕ) (s : String)
    → str_length s ≤ fuel
    → IsCut tools budget s (cut_down tools fuel budget s)
unfolding cut_down
cut_down_lem tools zero budget s h = (inr (omega arith), (str_length s, sym (take_text-all s)))
cut_down_lem tools (suc fuel) budget s h =
    cases (ltb budget (count_tokens tools s) && ltb 50 (str_length s)) refl
      (cut_down_lem tools fuel budget (take_text (str_length s - 20) s))
  where
    shorter : String
    shorter = take_text (str_length s - 20) s

    cases :
        (b : Bool)
        → (ltb budget (count_tokens tools s) && ltb 50 (str_length s)) ≡ b
        → (str_length shorter ≤ fuel
            → IsCut tools budget shorter (cut_down tools fuel budget shorter))
        → IsCut tools budget s (if b then cut_down tools fuel budget shorter else s)
    cases false e ih = (Fits-of tools budget s e, (str_length s, sym (take_text-all s)))
    cases true e ih =
        IsCut-shorter tools budget (str_length s - 20) s _
          (ih (ground (arith, str_length-take_text (str_length s - 20) s)))

-- The fuel is enough: cutting a text down leaves a beginning of it that is within the budget or has
-- at most 50 characters, for every text and budget.
pub cut_down_fits :
    (tools : Tools) (budget : ℕ) (s : String)
    → IsCut tools budget s (cut_down tools (str_length s) budget s)
cut_down_fits tools budget s = cut_down_lem tools (str_length s) budget s (omega arith)
