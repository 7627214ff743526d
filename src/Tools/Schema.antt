-- ===== src/Tools/Schema.antt =====
-- tools/base.py, `validate`: the parameters of a call against the tool's schema. `none` is the
-- `TypeError` that a list or a dictionary raises where the schema's `type` should be a name.
pub mod Passing
pub mod Conforms
use yellowbullv.Shared.{
  ℕ, String, ◌≡◌, refl, ◌≢◌, ◌↔◌, Option, none, some, Bool, true, false, List, [], ◌∷◌, ◌++◌, ◌&&◌,
  ◌||◌, not, arith, str_eq, str_eq_iff, if◌then◌else◌, concat, is_empty, All, filter, map,
  append-nil,
}
use yellowbullv.Shared.Json.{
  Json, null, bool, int, float, str, arr, obj, Items, Fields, nil, cons, end, field, fields,
  is_null,
}
use yellowbullv.Dict.{Dict, lookup}
use yellowbullv.Dict.Laws.{elem}
use yellowbullv.Tools.{ToolInfo, ParamSchema}

-- `type(value).__name__`
unfoldable pub type_name : Json → String
type_name null = "NoneType"
type_name (bool b) = "bool"
type_name (int n) = "int"
type_name (float t) = "float"
type_name (str s) = "str"
type_name (arr vs) = "list"
type_name (obj fs) = "dict"

-- The types that `type_map` has for a schema's type name, by the names of the Python types of
-- which a value is an instance. A `bool` is an `int`.
unfoldable pub type_map : String → Option (List String)
type_map name =
    if str_eq name "string"
    then some ("str" ∷ [])
    else if str_eq name "number"
    then some ("int" ∷ "bool" ∷ "float" ∷ [])
    else if str_eq name "integer"
    then some ("int" ∷ "bool" ∷ [])
    else if str_eq name "boolean"
    then some ("bool" ∷ [])
    else if str_eq name "array"
    then some ("list" ∷ [])
    else if str_eq name "object"
    then some ("dict" ∷ [])
    else none

-- `_check_json_schema_type` at a type name; an unknown name passes.
unfoldable pub check_json_schema_type : Json → String → Bool
unfolding type_map type_name
check_json_schema_type value name = elim (type_map name) [
  | none ↦ true
  | some instances ↦ elem (type_name value) instances
]

-- `req not in params or params[req] is None`
unfoldable pub is_missing : Dict Json → String → Bool
unfolding lookup
is_missing params req = elim (lookup req params) [ none ↦ true | some v ↦ is_null v ]

missing_error : String → String
missing_error req = concat ("Missing required parameter: " ∷ req ∷ [])

-- The loop over the required names, in the order `required`.
unfoldable pub required_errors : Dict Json → List String → List String
unfolding missing_error is_missing
required_errors params required = map missing_error (filter (is_missing params) required)

type_error : String → Json → String → String
type_error name value expected =
    concat ("Parameter '" ∷ name ∷ "' expected type " ∷ expected ∷ ", got " ∷ type_name value ∷ [])

-- The test of one value against `prop_schema["type"]`, where the schema has that entry.
unfoldable pub against : String → Json → Option Json → Option (List String)
unfolding check_json_schema_type type_error
against name value (some (str expected)) =
    if is_empty expected || check_json_schema_type value expected
    then some []
    else some (type_error name value expected ∷ [])
against name value (some (arr (cons v vs))) = none
against name value (some (obj (field k v fs))) = none
against name value _ = some []

-- A missing or empty property schema, or one that is no dictionary, is skipped.
unfoldable pub property_errors : String → Json → Option Json → Option (List String)
unfolding against lookup
property_errors name value (some (obj (field k v fs))) =
    against name value (lookup "type" (fields (field k v fs)))
property_errors name value _ = some []

-- The results of the loop's rounds in turn, until one raises.
abbrev pub then_errors : Option (List String) → Option (List String) → Option (List String)
then_errors none rest = none
then_errors (some es) none = none
then_errors (some es) (some fs) = some (es ++ fs)

-- The loop over `params.items()`.
unfoldable pub type_errors : Dict Json → Dict Json → Option (List String)
unfolding property_errors
type_errors props [] = some []
type_errors props ((name, value) ∷ params) =
    then_errors (property_errors name value (lookup name props)) (type_errors props params)

-- `validate`. `iterate` is the order in which Python goes through the set of the required names.
module _ (iterate : List String → List String) where
  unfoldable pub validate : ToolInfo → Dict Json → Option (List String)
  unfolding required_errors type_errors
  validate info params =
      then_errors (some (required_errors params (iterate info.parameters.required)))
        (type_errors info.parameters.properties params)
