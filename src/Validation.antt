-- ===== src/Validation.antt =====
-- core/security/input_validation.py. The regular expressions are the patterns' texts; what a search
-- finds in a text, if anything, is an argument.
pub mod Decision
mod Tests
use yellowbullv.Shared.{
  ℕ, String, Option, none, some, Bool, true, false, List, [], ◌∷◌, ◌&&◌, not, ltb, concat, join,
  show_nat, str_length, is_nonempty, if◌then◌else◌,
}

pub record ValidationResult : Type 0 where
  pub is_valid : Bool
  pub errors : List String
  pub warnings : List String

abbrev pub injection_patterns : List String
injection_patterns =
    "ignore\\s+previous\\s+(instructions?|commands?)"
    ∷ "disregard\\s+above\\s+(instructions?|rules?)" ∷ "system\\s*:\\s*(prompt|instruction)"
    ∷ "<\\s*system\\s*>" ∷ "\\[?\\s*developer\\s*(mode|message)\\s*\\]?"
    ∷ "act\\s+as\\s+(if)?\\s*a\\s+(new|different)" ∷ "pretend\\s+to\\s+be\\s+a\\s+(new|different)"
    ∷ "you\\s+are\\s+(now\\s+)?(a\\s+)?(?:new|different)\\s+" ∷ []

pub record InputValidator : Type 0 where
  pub max_length : ℕ
  pub injection_detection : Bool

length_error : ℕ → String → String
length_error limit text =
    concat
      ("Input too long: " ∷ show_nat (str_length text) ∷ " chars (max " ∷ show_nat limit ∷ ")" ∷ [])

warning : String → String
warning found = concat ("Suspicious pattern detected: '" ∷ found ∷ "'" ∷ [])

abbrev also_warning : Option String → List String → List String
also_warning none rest = rest
also_warning (some found) rest = warning found ∷ rest

-- A validation that passes, or the text of the `ValueError`.
pub data Verdict : Type 0 where
  passed : Verdict
  value_error : String → Verdict

module _ (search : String → String → Option String) where
  -- The loop over the patterns.
  unfoldable pub warnings_of : List String → String → List String
  unfolding warning
  warnings_of [] text = []
  warnings_of (p ∷ ps) text = also_warning (search p text) (warnings_of ps text)

  unfoldable pub validate : InputValidator → String → ValidationResult
  unfolding length_error
  validate v text =
      let errors =
        if ltb v.max_length (str_length text) then length_error v.max_length text ∷ [] else [] in
      record {
        is_valid = not (is_nonempty errors);
        errors = errors;
        warnings = if v.injection_detection then warnings_of injection_patterns text else [];
      }

  unfoldable pub validate_or_raise : InputValidator → Bool → String → Verdict
  validate_or_raise v block_injections text =
      let result = validate v text in
      if not result.is_valid
      then value_error (concat ("Input validation failed: " ∷ join "; " result.errors ∷ []))
      else if block_injections && is_nonempty result.warnings
      then value_error
          (concat ("Input blocked due to suspicious patterns: " ∷ join "; " result.warnings ∷ []))
      else passed
