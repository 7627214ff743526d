-- ===== src/Settings/Tests.antt =====
-- The settings against a concrete schema, and a reload of concrete files.
use yellowbullv.Shared.{String, ◌≡◌, none, some, true, [], ◌∷◌, is_nonempty, str_eq, if◌then◌else◌}
use yellowbullv.Shared.Json.{Json, obj, field, end, str, bool}
use yellowbullv.Dict.{Dict, lookup}
use yellowbullv.Settings.{
  Properties, no_more, property, validate_node, Cached, Loaded, loaded, load_error,
}
use yellowbullv.Settings.Schema.{validate_node-conforms}

abbrev schema : Properties
schema =
    property "llm" (some "object") (property "active" (some "string") no_more [] no_more)
      ("active" ∷ []) no_more

abbrev wrong : Dict Json
wrong = ("llm", obj (field "active" (bool true) end)) ∷ []

validate_node-conforms_example : is_nonempty (validate_node "" wrong schema ("llm" ∷ [])) ≡ true
unfolding lookup
validate_node-conforms_example = validate_node-conforms "" wrong schema ("llm" ∷ [])

-- One file can be read, and its settings are its JSON value.
abbrev read : String → Loaded Json
read path = if str_eq path "a.yaml" then loaded (str "v") else load_error "bad"

abbrev old : Cached Json
old = record { settings = none; path = "a.yaml" }
