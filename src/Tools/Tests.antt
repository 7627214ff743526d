-- ===== src/Tools/Tests.antt =====
-- Tools on concrete calls.
use yellowbullv.Shared.{ℕ, zero, suc, ◌≡◌, ◌↔◌, refl, none, some, true, false, [], ◌∷◌}
use yellowbullv.Shared.Json.{Json, int, pos, str, bool, obj, end, field}
use yellowbullv.Dict.{Dict, lookup}
use yellowbullv.Tools.{Tool, ToolInfo, with_execute}
use yellowbullv.Tools.Schema.{
  validate, is_missing, check_json_schema_type, required_errors, type_errors, property_errors,
}
use yellowbullv.Tools.Schema.Conforms.{Conforms, validate_iff}
use yellowbullv.Tools.Retry.{Outcome, returned, execute_with_retry}
use yellowbullv.Tools.Retry.Playback.{play, Stops, execute_with_retry-Stops}

abbrev repeat_info : ToolInfo
repeat_info = record {
  name = "repeat";
  description = "Say it again.";
  parameters = record {
    properties = ("n", obj (field "type" (str "integer") end)) ∷ [];
    required = "n" ∷ [];
    whole = obj end;
  };
}

abbrev repeat : Tool
repeat = record {
  info = repeat_info;
  max_retries = 2;
  takes_context = false;
  timeout = none;
  kind = with_execute;
  shown = "repeat";
}

abbrev three : Dict Json
three = ("n", int (pos 3)) ∷ []

validate_iff_example :
    (validate (λ ks. ks) repeat_info three ≡ some []) ↔ Conforms repeat_info three
validate_iff_example = validate_iff (λ ks. ks) repeat_info three (λ k ks. refl)

three_valid : validate (λ ks. ks) repeat_info three ≡ some []
unfolding validate required_errors type_errors property_errors is_missing lookup
    check_json_schema_type
three_valid = refl

-- A truth value passes for an integer.
bool_is_integer : check_json_schema_type (bool true) "integer" ≡ true
unfolding check_json_schema_type
bool_is_integer = refl

abbrev then_fine : ℕ → Outcome
then_fine zero = returned (record { content = ""; success = false; error = "busy" })
then_fine (suc n) = returned (record { content = "ok"; success = true; error = "" })

execute_with_retry-Stops_example :
    Stops then_fine 0 2 (execute_with_retry (play then_fine) (λ ks. ks) none repeat three 0)
execute_with_retry-Stops_example =
    execute_with_retry-Stops then_fine repeat three (λ ks. ks) none 0 three_valid
