-- ===== src/Builtins/Calls/Typed.antt =====
-- The schemas of the tools against the signatures of their `execute`.
use mathlib.Core.Path.{subst}
use yellowbullv.Shared.{
  String, ◌≡◌, refl, ap, ◌∙◌, Option, none, some, true, false, List, [], ◌∷◌, arith, All, is_some,
  str_eq, str_eq_iff, Bool-cases, inl, inr,
}
use yellowbullv.Shared.Json.{
  pos, Json, null, bool, int, float, str, arr, obj, Fields, field, is_null,
}
use yellowbullv.Dict.{Dict, lookup}
use yellowbullv.Dict.Laws.{elem}
use yellowbullv.Tools.Schema.{
  property_errors, is_missing, check_json_schema_type, type_map, type_name, validate,
}
use yellowbullv.Tools.Schema.Passing.{Passes, validate-Passes}
use yellowbullv.Builtins.Calls.{
  Builtin, calculator, execute_command, create_file_folder, current_time, read_file, write_file,
  web_search, info_of, as_str, as_int, as_bool, as_some, or_none, required, default, ◌>>=◌,
  bind_known, is_known, bind_call,
}

-- A property of this type, whatever else its schema says.
abbrev of_type : String → Fields → Option Json
of_type kind rest = some (obj (field "type" (str kind) rest))

string_typed :
    (k : String) (v : Json) (rest : Fields)
    → property_errors k v (of_type "string" rest) ≡ some []
    → is_some (as_str v) ≡ true
unfolding property_errors check_json_schema_type type_map type_name lookup
string_typed k null rest h = ground arith
string_typed k (bool true) rest h = ground arith
string_typed k (bool false) rest h = ground arith
string_typed k (int n) rest h = ground arith
string_typed k (float t) rest h = ground arith
string_typed k (str t) rest h = refl
string_typed k (arr t) rest h = ground arith
string_typed k (obj t) rest h = ground arith

integer_typed :
    (k : String) (v : Json) (rest : Fields)
    → property_errors k v (of_type "integer" rest) ≡ some []
    → is_some (as_int v) ≡ true
unfolding property_errors check_json_schema_type type_map type_name lookup
integer_typed k (int n) rest h = refl
integer_typed k (bool true) rest h = refl
integer_typed k (bool false) rest h = refl
integer_typed k null rest h = ground arith
integer_typed k (float t) rest h = ground arith
integer_typed k (str t) rest h = ground arith
integer_typed k (arr t) rest h = ground arith
integer_typed k (obj t) rest h = ground arith

boolean_typed :
    (k : String) (v : Json) (rest : Fields)
    → property_errors k v (of_type "boolean" rest) ≡ some []
    → is_some (as_bool v) ≡ true
unfolding property_errors check_json_schema_type type_map type_name lookup
boolean_typed k null rest h = ground arith
boolean_typed k (bool true) rest h = refl
boolean_typed k (bool false) rest h = refl
boolean_typed k (int n) rest h = ground arith
boolean_typed k (float t) rest h = ground arith
boolean_typed k (str t) rest h = ground arith
boolean_typed k (arr t) rest h = ground arith
boolean_typed k (obj t) rest h = ground arith

All-lookup :
    (P : String × Json → Type 0) (k : String) (v : Json) (params : Dict Json)
    → All P params
    → lookup k params ≡ some v
    → P (k, v)
unfolding lookup
All-lookup P k v [] h e = absurd (ground arith)
All-lookup P k v ((j, w) ∷ params) (p, h) e = elim (Bool-cases (str_eq j k)) [
  | inl same ↦
      let first : w ≡ v = ground arith in
      let pair = ap (λ x. (x, w)) ((str_eq_iff j k).0 same) ∙ ap (λ x. (k, x)) first in
      subst P pair p
  | inr other ↦ All-lookup P k v params h (ground arith)
]

bind_some :
    {A B : Type 0} (m : Option A) (f : A → Option B)
    → is_some m ≡ true
    → ((a : A) → is_some (f a) ≡ true)
    → is_some (m >>= f) ≡ true
unfolding ◌>>=◌
bind_some none f h k = ground arith
bind_some (some a) f h k = k a

as_some_lem : {A : Type 0} (o : Option A) → is_some o ≡ true → is_some (as_some o) ≡ true
as_some_lem none h = h
as_some_lem (some a) h = refl

or_none_lem :
    {A : Type 0} (read : Json → Option A) (v : Json)
    → is_some (read v) ≡ true
    → is_some (or_none read v) ≡ true
or_none_lem read null h = refl
or_none_lem read (bool b) h = as_some_lem _ h
or_none_lem read (int n) h = as_some_lem _ h
or_none_lem read (float t) h = as_some_lem _ h
or_none_lem read (str s) h = as_some_lem _ h
or_none_lem read (arr vs) h = as_some_lem _ h
or_none_lem read (obj fs) h = as_some_lem _ h

-- An argument whose value can be read wherever it passes the check against the property.
module _ {A : Type 0} (read : Json → Option A) (k : String) (b : Builtin) (params : Dict Json)
    (conforms : Passes (info_of b) params)
    (typed : (v : Json)
      → property_errors k v (lookup k (info_of b).parameters.properties) ≡ some []
      → is_some (read v) ≡ true) where
  given_typed : (v : Json) → lookup k params ≡ some v → is_some (read v) ≡ true
  given_typed v e = typed v (
      All-lookup
        (λ p. property_errors p.0 p.1 (lookup p.0 (info_of b).parameters.properties) ≡ some []) k v
        params conforms.typed e)

  default_typed : (value : A) → is_some (default read value k params) ≡ true
  unfolding default
  default_typed value = go (lookup k params) refl
    where
      go :
          (o : Option Json)
          → lookup k params ≡ o
          → is_some (elim o [ none ↦ some value | some v ↦ read v ]) ≡ true
      go none e = refl
      go (some v) e = given_typed v e

  required_typed :
      elem k (info_of b).parameters.required ≡ true → is_some (required read k params) ≡ true
  unfolding required is_missing
  required_typed e = go (lookup k params) refl (conforms.present k e)
    where
      go :
          (o : Option Json)
          → lookup k params ≡ o
          → elim o [ none ↦ true | some v ↦ is_null v ] ≡ false
          → is_some (elim o [ none ↦ none | some v ↦ read v ]) ≡ true
      go none e absent = ground arith
      go (some v) e absent = given_typed v e

bind_known-Passes :
    (b : Builtin) (params : Dict Json)
    → Passes (info_of b) params
    → is_some (bind_known b params) ≡ true
unfolding bind_known lookup
bind_known-Passes calculator params c =
    bind_some _ _
      (required_typed as_str "expression" calculator params c (λ v. string_typed "expression" v _)
        refl)
      (λ a. refl)
bind_known-Passes execute_command params c =
    bind_some _ _
      (required_typed as_str "command" execute_command params c (λ v. string_typed "command" v _)
        refl)
      (λ a1.
        bind_some _ _
          (default_typed (or_none as_str) "workdir" execute_command params c
            (λ v h. or_none_lem as_str v (string_typed "workdir" v _ h)) none)
          (λ a2.
            bind_some _ _
              (default_typed as_int "timeout" execute_command params c
                (λ v. integer_typed "timeout" v _) (pos 60))
              (λ a. refl)))
bind_known-Passes create_file_folder params c =
    bind_some _ _
      (required_typed as_str "path" create_file_folder params c (λ v. string_typed "path" v _) refl)
      (λ a1.
        bind_some _ _
          (default_typed as_str "kind" create_file_folder params c (λ v. string_typed "kind" v _)
            "file")
          (λ a2.
            bind_some _ _
              (default_typed (or_none as_str) "content" create_file_folder params c
                (λ v h. or_none_lem as_str v (string_typed "content" v _ h)) none)
              (λ a3.
                bind_some _ _
                  (default_typed as_bool "recursive" create_file_folder params c
                    (λ v. boolean_typed "recursive" v _) true)
                  (λ a. refl))))
bind_known-Passes current_time params c =
    bind_some _ _
      (default_typed as_str "timezone" current_time params c (λ v. string_typed "timezone" v _)
        "UTC")
      (λ a. refl)
bind_known-Passes read_file params c =
    bind_some _ _
      (required_typed as_str "filepath" read_file params c (λ v. string_typed "filepath" v _) refl)
      (λ a1.
        bind_some _ _
          (default_typed as_int "start_line" read_file params c
            (λ v. integer_typed "start_line" v _) (pos 1))
          (λ a2.
            bind_some _ _
              (default_typed (or_none as_int) "end_line" read_file params c
                (λ v h. or_none_lem as_int v (integer_typed "end_line" v _ h)) none)
              (λ a3.
                bind_some _ _
                  (default_typed as_int "max_bytes" read_file params c
                    (λ v. integer_typed "max_bytes" v _) (pos 102400))
                  (λ a. refl))))
bind_known-Passes write_file params c =
    bind_some _ _
      (required_typed as_str "filepath" write_file params c (λ v. string_typed "filepath" v _) refl)
      (λ a1.
        bind_some _ _
          (required_typed as_str "content" write_file params c (λ v. string_typed "content" v _)
            refl)
          (λ a2.
            bind_some _ _
              (default_typed as_bool "append" write_file params c (λ v. boolean_typed "append" v _)
                false)
              (λ a3.
                bind_some _ _
                  (default_typed as_bool "create_dirs" write_file params c
                    (λ v. boolean_typed "create_dirs" v _) true)
                  (λ a. refl))))
bind_known-Passes web_search params c =
    bind_some _ _
      (required_typed as_str "query" web_search params c (λ v. string_typed "query" v _) refl)
      (λ a1.
        bind_some _ _
          (default_typed as_int "max_results" web_search params c
            (λ v. integer_typed "max_results" v _) (pos 5))
          (λ a. refl))

-- Where going through a set meets exactly its members, a call that `validate` accepts for a built-in
-- tool, and that names only parameters of the tool, binds to the signature of the tool's `execute`, at
-- the types that stand there.
pub bind_call-validate :
    (iterate : List String → List String) (b : Builtin) (params : Dict Json)
    → ((k : String) (ks : List String) → elem k (iterate ks) ≡ elem k ks)
    → validate iterate (info_of b) params ≡ some []
    → is_known b params ≡ true
    → is_some (bind_call b params) ≡ true
unfolding bind_call
bind_call-validate iterate b params members valid known =
    rw known
      (bind_known-Passes b params ((validate-Passes iterate (info_of b) params members).0 valid))
