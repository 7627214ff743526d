-- ===== src/Tools.antt =====
-- tools/base.py and tools/registry.py: what a tool is, and the registry of tools. The bodies of the
-- tools are not part of this model: running one is an argument of what runs it.
pub mod Schema
pub mod Retry
pub mod Registry
mod Tests
use yellowbullv.Shared.{
  ℕ, String, Option, none, some, Bool, true, false, List, [], ◌∷◌, map, is_some,
}
use yellowbullv.Shared.Json.{Json, Fields, obj, str, field, end}
use yellowbullv.Dict.{Dict, lookup, insert, remove, values}

-- The JSON Schema object of a tool: its `properties` and `required` entries, absent ones empty, and
-- the whole value, which only goes into the function definitions.
pub record ParamSchema : Type 0 where
  pub properties : Dict Json
  pub required : List String
  pub whole : Json

pub record ToolInfo : Type 0 where
  pub name : String
  pub description : String
  pub parameters : ParamSchema

pub record ToolResult : Type 0 where
  pub content : String
  pub success : Bool
  pub error : String

-- How `_invoke_tool` of the executor can call an object.
pub data CallKind : Type 0 where
  with_execute plain_callable inert : CallKind

-- `shown` is `str(tool)`; `takes_context` says whether `execute` has a parameter `context`; `timeout` is the attribute of that name, in ticks, if there is one.
pub record Tool : Type 0 where
  pub info : ToolInfo
  pub max_retries : ℕ
  pub takes_context : Bool
  pub timeout : Option ℕ
  pub kind : CallKind
  pub shown : String

abbrev pub ToolRegistry : Type 0
ToolRegistry = Dict Tool

unfoldable pub register : Tool → ToolRegistry → ToolRegistry
register tool tools = insert tool.info.name tool tools

unfoldable pub unregister : String → ToolRegistry → Bool × ToolRegistry
unregister name tools = (is_some (lookup name tools), remove name tools)

-- `clear`
abbrev pub clear_tools : ToolRegistry → ToolRegistry
clear_tools tools = []

unfoldable pub find_tool : String → ToolRegistry → Option Tool
find_tool name tools = lookup name tools

unfoldable pub list_all : ToolRegistry → List Tool
list_all tools = values tools

-- `{"type": "function", "function": {"name": …, "description": …, "parameters": …}}`
unfoldable pub function_definition : Tool → Json
function_definition t = obj (
    field "type" (str "function") (
      field "function"
        (obj (
          field "name" (str t.info.name) (
            field "description" (str t.info.description)
              (field "parameters" t.info.parameters.whole end))))
        end))

unfoldable pub to_function_definitions : ToolRegistry → List Json
unfolding function_definition
to_function_definitions tools = map function_definition (values tools)
