-- ===== src/Tools/Registry.antt =====
-- Laws of the registry.
use yellowbullv.Shared.{
  ◌+◌, String, ◌≡◌, none, some, arith, str_eq, if◌then◌else◌, is_some, length, length-map,
}
use yellowbullv.Dict.{contains}
use yellowbullv.Dict.Laws.{lookup-insert, lookup-remove, length-insert}
use yellowbullv.Tools.{Tool, ToolRegistry, register, unregister, find_tool, to_function_definitions}

-- Registering a tool makes it the one that is found under its name, replacing an earlier tool of
-- that name, and leaves every other name alone.
pub find_tool-register :
    (t : Tool) (name : String) (tools : ToolRegistry)
    → find_tool name (register t tools)
      ≡ (if str_eq t.info.name name then some t else find_tool name tools)
unfolding find_tool register
find_tool-register t name tools = lookup-insert t.info.name name t tools

-- After a tool is unregistered no tool is found under its name and every other name is left alone;
-- the answer tells whether there was one.
pub find_tool-unregister :
    (name other : String) (tools : ToolRegistry)
    → (find_tool other (unregister name tools).1
        ≡ (if str_eq name other then none else find_tool other tools))
      × ((unregister name tools).0 ≡ is_some (find_tool name tools))
unfolding find_tool unregister
find_tool-unregister name other tools = (lookup-remove name other tools, ground arith)

-- The model is offered one definition for each name: a registration adds one unless the name was
-- taken.
pub length-definitions-register :
    (t : Tool) (tools : ToolRegistry)
    → length (to_function_definitions (register t tools)) ≡ (
        if contains t.info.name tools
        then length (to_function_definitions tools)
        else length (to_function_definitions tools) + 1)
unfolding to_function_definitions register
length-definitions-register t tools = simp (length-map, length-insert)
