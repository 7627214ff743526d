-- ===== src/Settings/Schema.antt =====
-- What it means that a configuration has no error against a schema.
use yellowbullv.Shared.{
  String, ◌≡◌, refl, Option, none, some, Bool, true, List, [], ◌∷◌, ◌++◌, ◌&&◌, ◌||◌, not, arith,
  str_eq, is_nonempty, if◌then◌else◌, concat, all,
}
use yellowbullv.Shared.Json.{Json, is_str, is_dict}
use yellowbullv.Dict.{Dict, lookup, contains}
use yellowbullv.Settings.{
  Properties, no_more, property, is_number, dict_of, wrong_type, missing_fields, check_value,
  property_errors, validate_node,
}

-- A value is of the type that is named: `inner` is what is asked of a dictionary where the type is
-- `object`. Another type's name, or a value that is no dictionary for `object`, is let through.
abbrev pub fits : Option String → Option Json → (Dict Json → Bool) → Bool
fits expected none inner = true
fits none (some v) inner = true
fits (some t) (some v) inner =
    if str_eq t "object" && is_dict v
    then inner (dict_of v)
    else (if str_eq t "string" then is_str v else true)
      && (if str_eq t "number" then is_number v else true)

abbrev pub has_all : Dict Json → List String → Bool
has_all conf required = all (λ req. contains req conf) required

abbrev pub conforms : Dict Json → Properties → Bool
conforms conf no_more = true
conforms conf (property key type properties required rest) =
    fits type (lookup key conf) (λ d. has_all d required && conforms d properties)
    && conforms conf rest

nonempty-append :
    (xs ys : List String) → is_nonempty (xs ++ ys) ≡ (is_nonempty xs || is_nonempty ys)
nonempty-append [] ys = refl
nonempty-append (x ∷ xs) ys = refl

missing_fields-has_all :
    (prefix : String) (conf : Dict Json) (required : List String)
    → is_nonempty (missing_fields prefix conf required) ≡ not (has_all conf required)
unfolding missing_fields
missing_fields-has_all prefix conf [] = refl
missing_fields-has_all prefix conf (k ∷ ks) =
    let ih = missing_fields-has_all prefix conf ks in ground arith

value_cases :
    (o s n is_s is_n i : Bool) (xs : List String) (x y : String)
    → is_nonempty xs ≡ not i
    → is_nonempty
        (if o then xs else if s && not is_s then x ∷ [] else if n && not is_n then y ∷ [] else [])
      ≡ not (if o then i else (if s then is_s else true) && (if n then is_n else true))
value_cases o s n is_s is_n i xs x y h = ground arith

check_value-fits :
    (prefix key : String) (expected : Option String) (v : Option Json)
    (errors : Dict Json → List String) (inner : Dict Json → Bool)
    → ((d : Dict Json) → is_nonempty (errors d) ≡ not (inner d))
    → is_nonempty (check_value prefix key expected v errors) ≡ not (fits expected v inner)
unfolding check_value
check_value-fits prefix key expected none errors inner h = refl
check_value-fits prefix key none (some v) errors inner h = refl
check_value-fits prefix key (some t) (some v) errors inner h =
    value_cases (str_eq t "object" && is_dict v) (str_eq t "string") (str_eq t "number") (is_str v)
      (is_number v) (inner (dict_of v)) (errors (dict_of v)) (wrong_type prefix key "string")
      (wrong_type prefix key "number") (h (dict_of v))

property_errors-conforms :
    (prefix : String) (conf : Dict Json) (properties : Properties)
    → is_nonempty (property_errors prefix conf properties) ≡ not (conforms conf properties)
unfolding property_errors
property_errors-conforms prefix conf no_more = refl
property_errors-conforms prefix conf (property key type properties required rest) =
    let deeper = concat (prefix ∷ key ∷ "." ∷ []) in
    let errors : Dict Json → List String =
      λ d. missing_fields deeper d required ++ property_errors deeper d properties in
    let inner : Dict Json → Bool = λ d. has_all d required && conforms d properties in
    let within : (d : Dict Json) → is_nonempty (errors d) ≡ not (inner d) = λ d.
      (let a =
          nonempty-append (missing_fields deeper d required)
            (property_errors deeper d properties) in
        let b = missing_fields-has_all deeper d required in
        let c = property_errors-conforms deeper d properties in ground arith) in
    let here = check_value-fits prefix key type (lookup key conf) errors inner within in
    let later = property_errors-conforms prefix conf rest in
    let sum =
      nonempty-append (check_value prefix key type (lookup key conf) errors)
        (property_errors prefix conf rest) in
    ground arith

-- Validation reports an error, whatever the prefix, exactly where the configuration does not
-- conform: a required name is missing, at any depth, or a text or a number is asked for and
-- another value is there. A value that is no dictionary passes where a dictionary is asked for.
pub validate_node-conforms :
    (prefix : String) (conf : Dict Json) (properties : Properties) (required : List String)
    → is_nonempty (validate_node prefix conf properties required)
      ≡ not (has_all conf required && conforms conf properties)
unfolding validate_node
validate_node-conforms prefix conf properties required =
    let a =
      nonempty-append (missing_fields prefix conf required)
        (property_errors prefix conf properties) in
    let b = missing_fields-has_all prefix conf required in
    let c = property_errors-conforms prefix conf properties in ground arith
