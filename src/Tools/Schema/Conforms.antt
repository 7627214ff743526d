-- ===== src/Tools/Schema/Conforms.antt =====
-- What it means for a call's parameters to conform to a schema, in terms of the JSON values alone.
use mathlib.Core.Path.{subst}
use yellowbullv.Shared.{
  String, ◌≡◌, refl, sym, ap, ◌∙◌, ◌≢◌, ◌↔◌, Option, none, some, true, false, not, List, [], ◌∷◌,
  arith, str_eq, str_eq_iff, All, Bool-cases, inl, inr, is_empty,
}
use yellowbullv.Shared.Json.{
  Json, null, bool, int, float, str, arr, obj, nil, cons, end, field, fields, is_null,
}
use yellowbullv.Dict.{Dict, lookup}
use yellowbullv.Dict.Laws.{elem}
use yellowbullv.Tools.{ToolInfo}
use yellowbullv.Tools.Schema.{
  type_name, type_map, check_json_schema_type, is_missing, against, property_errors, validate,
}
use yellowbullv.Tools.Schema.Passing.{validate-Passes}

-- The type names of a schema that a value is not of. Every other name is one that it passes: its own, or
-- one that is unknown. A truth value counts as a number.
abbrev pub wrong_for : Json → List String
wrong_for null = "string" ∷ "number" ∷ "integer" ∷ "boolean" ∷ "array" ∷ "object" ∷ []
wrong_for (bool b) = "string" ∷ "array" ∷ "object" ∷ []
wrong_for (int n) = "string" ∷ "boolean" ∷ "array" ∷ "object" ∷ []
wrong_for (float t) = "string" ∷ "integer" ∷ "boolean" ∷ "array" ∷ "object" ∷ []
wrong_for (str s) = "number" ∷ "integer" ∷ "boolean" ∷ "array" ∷ "object" ∷ []
wrong_for (arr vs) = "string" ∷ "number" ∷ "integer" ∷ "boolean" ∷ "object" ∷ []
wrong_for (obj fs) = "string" ∷ "number" ∷ "integer" ∷ "boolean" ∷ "array" ∷ []

-- The `type` that the schema of a property declares, if it is a dictionary with that entry.
abbrev pub declared : Option Json → Option Json
declared (some (obj fs)) = lookup "type" (fields fs)
declared _ = none

-- A value at a declared type. A list or a dictionary with entries is no type.
abbrev pub Fits : Json → Option Json → Type 0
Fits v (some (str name)) = elem name (wrong_for v) ≡ false
Fits v (some (arr (cons x xs))) = ⊥
Fits v (some (obj (field k x fs))) = ⊥
Fits v _ = Unit

pub record Conforms (info : ToolInfo) (params : Dict Json) : Type 0 where
  pub present :
      (req : String)
      → elem req info.parameters.required ≡ true
      → (v : Json) × (lookup req params ≡ some v) × (v ≢ null)
  pub typed : All (λ p. Fits p.1 (declared (lookup p.0 info.parameters.properties))) params

-- The check of a type against the list of wrong ones.
abbrev Agrees : Json → String → Type 0
Agrees v name = check_json_schema_type v name ≡ not (elem name (wrong_for v))

-- A name is one of the six that are known, or differs from each of them.
by_name :
    (P : String → Type 0)
    → P "string"
    → P "number"
    → P "integer"
    → P "boolean"
    → P "array"
    → P "object"
    → ((name : String)
        → str_eq name "string" ≡ false
        → str_eq name "number" ≡ false
        → str_eq name "integer" ≡ false
        → str_eq name "boolean" ≡ false
        → str_eq name "array" ≡ false
        → str_eq name "object" ≡ false
        → P name)
    → (name : String) → P name
by_name P p1 p2 p3 p4 p5 p6 other name = elim (Bool-cases (str_eq name "string")) [
  | inl e ↦ subst P (sym ((str_eq_iff name "string").0 e)) p1
  | inr a ↦ elim (Bool-cases (str_eq name "number")) [
    | inl e ↦ subst P (sym ((str_eq_iff name "number").0 e)) p2
    | inr b ↦ elim (Bool-cases (str_eq name "integer")) [
      | inl e ↦ subst P (sym ((str_eq_iff name "integer").0 e)) p3
      | inr c ↦ elim (Bool-cases (str_eq name "boolean")) [
        | inl e ↦ subst P (sym ((str_eq_iff name "boolean").0 e)) p4
        | inr d ↦ elim (Bool-cases (str_eq name "array")) [
          | inl e ↦ subst P (sym ((str_eq_iff name "array").0 e)) p5
          | inr f ↦ elim (Bool-cases (str_eq name "object")) [
            | inl e ↦ subst P (sym ((str_eq_iff name "object").0 e)) p6
            | inr g ↦ other name a b c d f g
          ]
        ]
      ]
    ]
  ]
]

flip : (name other : String) → str_eq name other ≡ false → str_eq other name ≡ false
flip name other h = ground (arith, str_eq_iff name other, str_eq_iff other name)

module _ (name : String) (a : str_eq name "string" ≡ false) (b : str_eq name "number" ≡ false)
    (c : str_eq name "integer" ≡ false) (d : str_eq name "boolean" ≡ false)
    (e : str_eq name "array" ≡ false) (f : str_eq name "object" ≡ false) where
  check-unknown : (v : Json) → check_json_schema_type v name ≡ true
  unfolding check_json_schema_type type_map
  check-unknown v = rw (check_json_schema_type, type_map, a, b, c, d, e, f) refl

  wrong_for-unknown : (v : Json) → elem name (wrong_for v) ≡ false
  wrong_for-unknown null = simp (
    flip name "string" a,
    flip name "number" b,
    flip name "integer" c,
    flip name "boolean" d,
    flip name "array" e,
    flip name "object" f,
  )
  wrong_for-unknown (bool x) =
      simp (flip name "string" a, flip name "array" e, flip name "object" f)
  wrong_for-unknown (int n) =
      simp (flip name "string" a, flip name "boolean" d, flip name "array" e, flip name "object" f)
  wrong_for-unknown (float t) = simp (
    flip name "string" a,
    flip name "integer" c,
    flip name "boolean" d,
    flip name "array" e,
    flip name "object" f,
  )
  wrong_for-unknown (str s) = simp (
    flip name "number" b,
    flip name "integer" c,
    flip name "boolean" d,
    flip name "array" e,
    flip name "object" f,
  )
  wrong_for-unknown (arr vs) = simp (
    flip name "string" a,
    flip name "number" b,
    flip name "integer" c,
    flip name "boolean" d,
    flip name "object" f,
  )
  wrong_for-unknown (obj fs) = simp (
    flip name "string" a,
    flip name "number" b,
    flip name "integer" c,
    flip name "boolean" d,
    flip name "array" e,
  )

  Agrees-unknown : (v : Json) → Agrees v name
  Agrees-unknown v = check-unknown v ∙ sym (ap not (wrong_for-unknown v))

Agrees-all : (v : Json) (name : String) → Agrees v name
unfolding check_json_schema_type type_map type_name
Agrees-all null =
    by_name (Agrees null) refl refl refl refl refl refl
      (λ n a b c d e f. Agrees-unknown n a b c d e f null)
Agrees-all (bool x) =
    by_name (Agrees (bool x)) refl refl refl refl refl refl
      (λ n a b c d e f. Agrees-unknown n a b c d e f (bool x))
Agrees-all (int x) =
    by_name (Agrees (int x)) refl refl refl refl refl refl
      (λ n a b c d e f. Agrees-unknown n a b c d e f (int x))
Agrees-all (float x) =
    by_name (Agrees (float x)) refl refl refl refl refl refl
      (λ n a b c d e f. Agrees-unknown n a b c d e f (float x))
Agrees-all (str x) =
    by_name (Agrees (str x)) refl refl refl refl refl refl
      (λ n a b c d e f. Agrees-unknown n a b c d e f (str x))
Agrees-all (arr x) =
    by_name (Agrees (arr x)) refl refl refl refl refl refl
      (λ n a b c d e f. Agrees-unknown n a b c d e f (arr x))
Agrees-all (obj x) =
    by_name (Agrees (obj x)) refl refl refl refl refl refl
      (λ n a b c d e f. Agrees-unknown n a b c d e f (obj x))

empty-literal : (v : Json) → elem "" (wrong_for v) ≡ false
empty-literal null = refl
empty-literal (bool b) = refl
empty-literal (int n) = refl
empty-literal (float t) = refl
empty-literal (str s) = refl
empty-literal (arr vs) = refl
empty-literal (obj fs) = refl

-- The error list of one value against a declared type.
empty-right : (v : Json) (name : String) → is_empty name ≡ true → elem name (wrong_for v) ≡ false
empty-right v name h =
    subst (λ n. elem n (wrong_for v) ≡ false) (sym ((str_eq_iff name "").0 h)) (empty-literal v)

against-str :
    (name : String) (v : Json) (expected : String)
    → (against name v (some (str expected)) ≡ some []) ↔ (elem expected (wrong_for v) ≡ false)
unfolding against
against-str name v expected =
    let same = Agrees-all v expected in
    let nothing = empty-right v expected in (ground arith, ground arith)

against-Fits :
    (name : String) (v : Json) (t : Option Json) → (against name v t ≡ some []) ↔ Fits v t
unfolding against
against-Fits name v none = (λ h. tt, λ h. refl)
against-Fits name v (some null) = (λ h. tt, λ h. refl)
against-Fits name v (some (bool b)) = (λ h. tt, λ h. refl)
against-Fits name v (some (int n)) = (λ h. tt, λ h. refl)
against-Fits name v (some (float x)) = (λ h. tt, λ h. refl)
against-Fits name v (some (arr nil)) = (λ h. tt, λ h. refl)
against-Fits name v (some (arr (cons x xs))) = (λ h. ground arith, λ h. absurd h)
against-Fits name v (some (obj end)) = (λ h. tt, λ h. refl)
against-Fits name v (some (obj (field k x fs))) = (λ h. ground arith, λ h. absurd h)
against-Fits name v (some (str expected)) = against-str name v expected

property-Fits :
    (name : String) (v : Json) (prop : Option Json)
    → (property_errors name v prop ≡ some []) ↔ Fits v (declared prop)
unfolding property_errors lookup
property-Fits name v none = (λ h. tt, λ h. refl)
property-Fits name v (some null) = (λ h. tt, λ h. refl)
property-Fits name v (some (bool b)) = (λ h. tt, λ h. refl)
property-Fits name v (some (int n)) = (λ h. tt, λ h. refl)
property-Fits name v (some (float x)) = (λ h. tt, λ h. refl)
property-Fits name v (some (str t)) = (λ h. tt, λ h. refl)
property-Fits name v (some (arr vs)) = (λ h. tt, λ h. refl)
property-Fits name v (some (obj end)) = (λ h. tt, λ h. refl)
property-Fits name v (some (obj (field k x fs))) =
    against-Fits name v (lookup "type" (fields (field k x fs)))

types-Fits :
    (props params : Dict Json)
    → All (λ p. property_errors p.0 p.1 (lookup p.0 props) ≡ some []) params
      ↔ All (λ p. Fits p.1 (declared (lookup p.0 props))) params
types-Fits props [] = (λ h. tt, λ h. tt)
types-Fits props ((name, v) ∷ params) =
    let (to, from) = property-Fits name v (lookup name props) in
    let (to', from') = types-Fits props params in
    (λ (h, hs). (to h, to' hs), λ (h, hs). (from h, from' hs))

null-is_null : (v : Json) → is_null v ≡ false → v ≢ null
null-is_null null h e = ground arith
null-is_null (bool b) h e = ground arith
null-is_null (int n) h e = ground arith
null-is_null (float x) h e = ground arith
null-is_null (str t) h e = ground arith
null-is_null (arr vs) h e = ground arith
null-is_null (obj fs) h e = ground arith

is_null-null : (v : Json) → v ≢ null → is_null v ≡ false
is_null-null null h = absurd (h refl)
is_null-null (bool b) h = refl
is_null-null (int n) h = refl
is_null-null (float x) h = refl
is_null-null (str t) h = refl
is_null-null (arr vs) h = refl
is_null-null (obj fs) h = refl

present-is_missing :
    (params : Dict Json) (req : String)
    → (is_missing params req ≡ false) ↔ ((v : Json) × (lookup req params ≡ some v) × (v ≢ null))
unfolding is_missing
present-is_missing params req = go (lookup req params)
  where
    go :
        (o : Option Json)
        → (elim o [ none ↦ true | some v ↦ is_null v ] ≡ false)
          ↔ ((v : Json) × (o ≡ some v) × (v ≢ null))
    go none = (λ h. absurd (ground arith), λ (v, e, n). absurd (ground arith))
    go (some v) = (
      λ h. (v, refl, null-is_null v h),
      λ (w, e, n). is_null-null v (λ z. n (sym (ground arith) ∙ z)),
    )

-- Where going through a set meets exactly its members, `validate` finds no error exactly when every
-- required parameter is given with a value other than null, and no given parameter has a value of a kind
-- that the type declared for it, if there is one, excludes: a text where a number, an integer, a truth
-- value, a list or an object is wanted, and so on for the other kinds; an unknown type excludes nothing.
pub validate_iff :
    (iterate : List String → List String) (info : ToolInfo) (params : Dict Json)
    → ((k : String) (ks : List String) → elem k (iterate ks) ≡ elem k ks)
    → (validate iterate info params ≡ some []) ↔ Conforms info params
validate_iff iterate info params members =
    let (sound, complete) = validate-Passes iterate info params members in
    let (to, from) = types-Fits info.parameters.properties params in
    (
      λ h. record {
        present = λ req m. (present-is_missing params req).0 ((sound h).present req m);
        typed = to (sound h).typed;
      },
      λ c. complete (record {
        present = λ req m. (present-is_missing params req).1 (c.present req m);
        typed = from c.typed;
      }),
    )
