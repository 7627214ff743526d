-- ===== src/Llm/Anthropic/Definitions.antt =====
-- The tools' definitions that the registry makes, as Anthropic's provider reads them.
use yellowbullv.Shared.{◌≡◌, refl, none, [], ◌∷◌, arith, is_some, is_nonempty, not}
use yellowbullv.Dict.{lookup}
use yellowbullv.Tools.{Tool, ToolRegistry, function_definition, to_function_definitions}
use yellowbullv.Llm.Anthropic.{format_tool, format_tools}

definition-no_name : (t : Tool) → format_tool (function_definition t) ≡ none
unfolding format_tool function_definition lookup
definition-no_name t = refl

-- The definitions that the registry makes can be put into Anthropic's form exactly where there is
-- no tool at all: each definition has its `name` inside `function`, and the provider looks for it
-- outside.
format_tools-definitions :
    (tools : ToolRegistry)
    → is_some (format_tools (to_function_definitions tools)) ≡ not (is_nonempty tools)
unfolding format_tools to_function_definitions
format_tools-definitions [] = refl
format_tools-definitions ((k, t) ∷ tools) = let e = definition-no_name t in ground arith
