-- ===== src/Validation/Decision.antt =====
-- Which texts pass.
use yellowbullv.Shared.{
  ◌≤◌, String, ◌≡◌, refl, ◌↔◌, ◌⊎◌, inl, inr, Option, none, Bool, false, List, [], ◌∷◌, arith, All,
  str_length, is_nonempty, Option-cases, Bool-cases,
}
use yellowbullv.Validation.{
  InputValidator, injection_patterns, passed, warnings_of, validate, validate_or_raise,
}

module _ (search : String → String → Option String) where
  abbrev pub Clean : String → Type 0
  Clean text = All (λ p. search p text ≡ none) injection_patterns

  warnings_of-nonempty :
      (ps : List String) (text : String)
      → (is_nonempty (warnings_of search ps text) ≡ false) ↔ All (λ p. search p text ≡ none) ps
  unfolding warnings_of
  warnings_of-nonempty [] text = ((λ h. tt), (λ h. refl))
  warnings_of-nonempty (p ∷ ps) text = elim (Option-cases (search p text)) [
    | inl e ↦ (
      (λ h. (e, (warnings_of-nonempty ps text).0 (ground arith))),
      (λ h. let r = (warnings_of-nonempty ps text).1 h.1 in ground arith),
    )
    | inr (found, e) ↦ ((λ h. absurd (ground arith)), (λ h. absurd (let q = h.0 in ground arith)))
  ]

  -- A text passes exactly where it is no longer than the limit and, if injections are blocked and
  -- looked for, none of the patterns is found in it.
  pub validate_or_raise_iff :
      (v : InputValidator) (block_injections : Bool) (text : String)
      → (validate_or_raise search v block_injections text ≡ passed) ↔ (
          (str_length text ≤ v.max_length)
          × ((block_injections ≡ false) ⊎ (v.injection_detection ≡ false) ⊎ Clean text))
  unfolding validate_or_raise validate
  validate_or_raise_iff v block text =
      let clean = warnings_of-nonempty injection_patterns text in
      elim (Bool-cases (is_nonempty (warnings_of search injection_patterns text))) [
        | inl e ↦
            let dirty : Clean text → ⊥ = λ c. let f = clean.1 c in ground arith in
            (
              (λ h. (ground arith, ground arith)),
              (λ h. elim h.1 [
                | inl off ↦ (let le = h.0 in ground arith)
                | inr (inl off) ↦ (let le = h.0 in ground arith)
                | inr (inr c) ↦ absurd (dirty c)
              ]),
            )
        | inr e ↦
            ((λ h. (ground arith, inr (inr (clean.0 e)))), (λ h. let le = h.0 in ground arith))
      ]
