-- ===== src/Settings.antt =====
-- config/settings.py: validation against a schema, the environment variables in a configuration, and
-- loading. Pydantic's checks, the file system, YAML and what `re.sub` makes of a text are arguments;
-- the watching thread is not modelled.
pub mod Records
pub mod Schema
pub mod Loading
mod Tests
use yellowbullv.Shared.{
  String, Option, none, some, Bool, true, false, List, [], ◌∷◌, ◌++◌, ◌&&◌, ◌||◌, not, str_eq,
  is_empty, concat, if◌then◌else◌, map, filter, str_or,
}
use yellowbullv.Shared.Json.{
  Json, null, bool, int, float, str, arr, obj, Items, nil, cons, Fields, end, field, fields, is_str,
  is_dict,
}
use yellowbullv.Dict.{Dict, lookup, contains}

-- The properties of a schema in their order, each with its name and its own `type`, `properties` and
-- `required`.
pub data Properties : Type 0 where
  no_more : Properties
  property :
      (key : String) (type : Option String) (properties : Properties) (required : List String)
      (rest : Properties)
      → Properties

-- `isinstance(value, (int, float))`; a `bool` is an `int`
abbrev pub is_number : Json → Bool
is_number (int n) = true
is_number (float t) = true
is_number (bool b) = true
is_number _ = false

abbrev pub dict_of : Json → Dict Json
dict_of (obj fs) = fields fs
dict_of _ = []

missing_field : String → String → String
missing_field prefix req = concat ("Missing required field: " ∷ prefix ∷ req ∷ [])

wrong_type : String → String → String → String
wrong_type prefix key expected =
    concat ("Invalid type for " ∷ prefix ∷ key ∷ ": expected " ∷ expected ∷ [])

-- The loop over the required names.
unfoldable pub missing_fields : String → Dict Json → List String → List String
unfolding missing_field
missing_fields prefix conf required =
    map (missing_field prefix) (filter (λ req. not (contains req conf)) required)

-- One round of the loop over the properties, by the value that the configuration has under the key; `inner`
-- is the validation of a dictionary against the property's own schema.
unfoldable pub check_value :
    String → String → Option String → Option Json → (Dict Json → List String) → List String
unfolding wrong_type
check_value prefix key expected none inner = []
check_value prefix key none (some v) inner = []
check_value prefix key (some t) (some v) inner =
    if str_eq t "object" && is_dict v
    then inner (dict_of v)
    else if str_eq t "string" && not (is_str v)
    then wrong_type prefix key "string" ∷ []
    else if str_eq t "number" && not (is_number v)
    then wrong_type prefix key "number" ∷ []
    else []

-- The loop over the properties.
unfoldable pub property_errors : String → Dict Json → Properties → List String
unfolding missing_fields check_value lookup
property_errors prefix conf no_more = []
property_errors prefix conf (property key type properties required rest) =
    let deeper = concat (prefix ∷ key ∷ "." ∷ []) in
    check_value prefix key type (lookup key conf)
      (λ d. missing_fields deeper d required ++ property_errors deeper d properties)
    ++ property_errors prefix conf rest

-- `_validate_node`
unfoldable pub validate_node : String → Dict Json → Properties → List String → List String
validate_node prefix conf properties required =
    missing_fields prefix conf required ++ property_errors prefix conf properties

unfoldable mutual
  -- `_resolve_env_vars`, with what it makes of a text
  pub resolve_env_vars : (String → String) → Json → Json
  resolve_env_vars sub null = null
  resolve_env_vars sub (bool b) = bool b
  resolve_env_vars sub (int n) = int n
  resolve_env_vars sub (float t) = float t
  resolve_env_vars sub (str s) = str (sub s)
  resolve_env_vars sub (arr vs) = arr (resolve_items sub vs)
  resolve_env_vars sub (obj fs) = obj (resolve_fields sub fs)

  pub resolve_items : (String → String) → Items → Items
  resolve_items sub nil = nil
  resolve_items sub (cons v vs) = cons (resolve_env_vars sub v) (resolve_items sub vs)

  pub resolve_fields : (String → String) → Fields → Fields
  resolve_fields sub end = end
  resolve_fields sub (field k v fs) = field k (resolve_env_vars sub v) (resolve_fields sub fs)

-- The module's cached settings and the path that they are of.
pub record Cached (S : Type 0) : Type 0 where
  pub settings : Option S
  pub path : String

-- What reading a file gives: its value (`{}` for a missing, an empty or an undecodable file) or an
-- error of YAML.
pub data Loaded (S : Type 0) : Type 0 where
  loaded : S → Loaded S
  load_error : String → Loaded S

-- `config_path`, or the path that the environment or the code names
abbrev pub path_or : Option String → String → String
path_or none other = other
path_or (some p) other = p

abbrev pub has_loaded : {S : Type 0} → Loaded S → Bool
has_loaded (loaded s) = true
has_loaded (load_error e) = false

module _ {S : Type 0} (sub : String → String) (read : String → Loaded Json)
    (construct : Json → Loaded S) (env_path : String) where
  -- `Settings(**raw)`, from what is read
  abbrev pub built : Loaded Json → Loaded S
  built (load_error e) = load_error e
  built (loaded raw) = construct (resolve_env_vars sub raw)

  abbrev pub stored : String → Loaded S → Cached S → Loaded S × Cached S
  stored path (load_error e) c = (load_error e, c)
  stored path (loaded s) c = (loaded s, record { settings = some s; path = path })

  unfoldable pub load_settings : Option String → Cached S → Loaded S × Cached S
  load_settings config_path c =
      let path = path_or config_path env_path in stored path (built (read path)) c

  unfoldable pub reload_settings : Option String → Cached S → Bool × Cached S
  reload_settings config_path c =
      let path = path_or config_path (str_or c.path env_path) in
      let (outcome, c') = load_settings (some path) c in (has_loaded outcome, c')
