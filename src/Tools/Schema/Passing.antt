-- ===== src/Tools/Schema/Passing.antt =====
-- That `validate` finds no error, by the tests of its rounds.
use yellowbullv.Shared.{
  String, ◌≡◌, refl, sym, ap, ◌∙◌, ◌↔◌, some, true, false, List, [], ◌∷◌, ◌++◌, arith, str_eq_iff,
  str_eq_refl, All, Option-cases, inl, inr,
}
use yellowbullv.Shared.Json.{Json}
use yellowbullv.Dict.{Dict, lookup}
use yellowbullv.Dict.Laws.{elem}
use yellowbullv.Tools.{ToolInfo}
use yellowbullv.Tools.Schema.{is_missing, required_errors, property_errors, type_errors, validate}

-- What a call's parameters must satisfy, in the terms of the code's own tests.
pub record Passes (info : ToolInfo) (params : Dict Json) : Type 0 where
  pub present :
      (req : String) → elem req info.parameters.required ≡ true → is_missing params req ≡ false
  pub typed :
      All (λ p. property_errors p.0 p.1 (lookup p.0 info.parameters.properties) ≡ some []) params

append_eq_nil {ℓ} : {A : Type ℓ} (xs ys : List A) → xs ++ ys ≡ [] → (xs ≡ []) × (ys ≡ [])
append_eq_nil [] ys h = (refl, h)
append_eq_nil (x ∷ xs) ys h = absurd (ground arith)

required-nil :
    (params : Dict Json) (ks : List String)
    → required_errors params ks ≡ []
    → (k : String) → elem k ks ≡ true
    → is_missing params k ≡ false
unfolding required_errors
required-nil params [] h k e = absurd (ground arith)
required-nil params (j ∷ ks) h k e =
    ground (arith, required-nil params ks, str_eq_iff j k, required-nil params ks (ground arith) k)

required-nil_of :
    (params : Dict Json) (ks : List String)
    → ((k : String) → elem k ks ≡ true → is_missing params k ≡ false)
    → required_errors params ks ≡ []
unfolding required_errors
required-nil_of params [] h = refl
required-nil_of params (j ∷ ks) h =
    let rest = required-nil_of params ks (λ k e. h k (ground (arith, str_eq_iff j k))) in
    let first = h j (ground (arith, str_eq_refl j)) in ground arith

types-nil :
    (props params : Dict Json)
    → type_errors props params ≡ some []
    → All (λ p. property_errors p.0 p.1 (lookup p.0 props) ≡ some []) params
unfolding type_errors
types-nil props [] h = tt
types-nil props ((name, value) ∷ params) h =
    elim (Option-cases (property_errors name value (lookup name props))) [
      | inl e ↦ absurd (ground arith)
      | inr (es, e) ↦ elim (Option-cases (type_errors props params)) [
        | inl f ↦ absurd (ground arith)
        | inr (fs, f) ↦ (ground arith, types-nil props params (ground arith))
      ]
    ]

types-nil_of :
    (props params : Dict Json)
    → All (λ p. property_errors p.0 p.1 (lookup p.0 props) ≡ some []) params
    → type_errors props params ≡ some []
unfolding type_errors
types-nil_of props [] h = refl
types-nil_of props ((name, value) ∷ params) (p, h) = ground (arith, types-nil_of props params h)

-- `validate` finds no error exactly when each of its rounds finds none.
pub validate-Passes :
    (iterate : List String → List String) (info : ToolInfo) (params : Dict Json)
    → ((k : String) (ks : List String) → elem k (iterate ks) ≡ elem k ks)
    → (validate iterate info params ≡ some []) ↔ Passes info params
unfolding validate
validate-Passes iterate info params members = (sound, complete)
  where
    required : List String
    required = iterate info.parameters.required

    props : Dict Json
    props = info.parameters.properties

    sound : validate iterate info params ≡ some [] → Passes info params
    sound h = elim (Option-cases (type_errors props params)) [
      | inl e ↦ absurd (ground arith)
      | inr (fs, e) ↦ record {
        present = λ req m.
            required-nil params required
              (append_eq_nil (required_errors params required) fs (ground arith)).0 req
              (members req info.parameters.required ∙ m);
        typed =
            types-nil props params
              (e ∙ ap some (append_eq_nil (required_errors params required) fs (ground arith)).1);
      }
    ]

    complete : Passes info params → validate iterate info params ≡ some []
    complete c =
        let r =
          required-nil_of params required
            (λ k m. c.present k (sym (members k info.parameters.required) ∙ m)) in
        let t = types-nil_of props params c.typed in ground (arith, r, t)
