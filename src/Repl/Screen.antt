-- ===== src/Repl/Screen.antt =====
-- cli/repl.py: what is shown on the terminal, and the helpers that print it.
use yellowbullv.Shared.{
  String, Option, none, some, or_empty, str_or, ◌⊎◌, inl, inr, List, [], ◌∷◌, ◌++◌, map, concat,
  take_text, last_slice,
}
use yellowbullv.Shared.Json.{Json, str, obj, fields}
use yellowbullv.Dict.{lookup}
use yellowbullv.Session.{MessageRole, system, user, assistant, tool, Message}
use yellowbullv.Agent.{ChatResponse}

-- What goes to the terminal: a text with its markup, a panel with its title, a text in Markdown, or an
-- empty screen.
pub data Printed : Type 0 where
  text : String → Printed
  panel : (title content : String) → Printed
  markdown : String → Printed
  cleared : Printed

-- What is shown of some prints in a row, and the exception that ends them, if one does.
unfoldable pub printed_until :
    (Printed → Option String) → List Printed → List Printed × Option String
printed_until shows [] = ([], none)
printed_until shows (p ∷ ps) =
    let rest = printed_until shows ps in
    elim (shows p) [ some e ↦ ([], some e) | none ↦ (p ∷ rest.0, rest.1) ]

abbrev pub farewell : Printed
farewell = text "[dim]再见 👋[/dim]"

abbrev pub help_panel : Printed
help_panel = panel "[bold]帮助[/bold]" (
    concat (
      "[bold]可用命令:[/bold]\n\n" ∷ "  [cyan]/help[/cyan]      显示帮助信息\n"
      ∷ "  [cyan]/new[/cyan]       创建新会话（继承工作目录）\n" ∷ "  [cyan]/workdir[/cyan]    查看或更改工作目录\n"
      ∷ "  [cyan]/sessions[/cyan]   列出所有会话\n" ∷ "  [cyan]/history[/cyan]    查看当前会话历史\n"
      ∷ "  [cyan]/clear[/cyan]      清屏\n" ∷ "  [cyan]/quit[/cyan]       退出程序" ∷ []))

-- `_print_history`: the style and the upper-case name of a role, and the line of a message.
abbrev pub style_of : MessageRole → String
style_of user = "green"
style_of assistant = "blue"
style_of tool = "yellow"
style_of system = "white"

abbrev pub upper_role : MessageRole → String
upper_role user = "USER"
upper_role assistant = "ASSISTANT"
upper_role tool = "TOOL"
upper_role system = "SYSTEM"

unfoldable pub history_line : Message → Printed
history_line m =
    let style = style_of m.role in
    text (
      concat (
        "["
        ∷ style
        ∷ "]"
        ∷ upper_role m.role
        ∷ ":[/"
        ∷ style
        ∷ "] "
        ∷ take_text 200 (or_empty m.content)
        ∷ []))

abbrev pub no_messages : Printed
no_messages = text "[dim]当前会话暂无消息[/dim]"

unfoldable pub print_history : List Message → List Printed
unfolding history_line
print_history [] = no_messages ∷ []
print_history (m ∷ ms) = map history_line (last_slice 20 (m ∷ ms))

-- `_print_tool_call`, which is given no arguments.
unfoldable pub tool_panel : String → String → Printed
tool_panel name content =
    panel (concat ("[yellow]🔧 工具调用: " ∷ name ∷ "[/yellow]" ∷ []))
      (concat ("[bold]参数:[/bold] \n\n[dim]" ∷ take_text 500 content ∷ "[/dim]" ∷ []))

-- `tr.get("tool", "unknown")` and `tr["content"]` of a result, where these are texts; else the exception
-- that `bad_result` describes.
panel_of : Option Json → Option Json → String → Printed ⊎ String
unfolding tool_panel
panel_of none (some (str c)) bad = inl (tool_panel "unknown" c)
panel_of (some (str n)) (some (str c)) bad = inl (tool_panel n c)
panel_of _ _ bad = inr bad

unfoldable pub result_panel : (Json → String) → Json → Printed ⊎ String
unfolding panel_of
result_panel bad_result (obj fs) =
    panel_of (lookup "tool" (fields fs)) (lookup "content" (fields fs)) (bad_result (obj fs))
result_panel bad_result v = inr (bad_result v)

-- The loop over the results, and the exception that ends it, if one does.
unfoldable pub result_panels : (Json → String) → List Json → List Printed × Option String
unfolding result_panel
result_panels bad_result [] = ([], none)
result_panels bad_result (v ∷ vs) =
    let (more, e) = result_panels bad_result vs in
    elim (result_panel bad_result v) [
      | inl p ↦ (text "" ∷ p ∷ more, e)
      | inr z ↦ (text "" ∷ [], some z)
    ]

-- What the `try` block prints for an answer: the results of tools, a blank line and the answer.
unfoldable pub answer_block : (Json → String) → ChatResponse → List Printed × Option String
unfolding result_panels
answer_block bad_result r =
    let (panels, e) = result_panels bad_result r.tool_results in
    elim e [
      | some z ↦ (panels, some z)
      | none ↦ (panels ++ text "" ∷ markdown (str_or r.content "(无回复)") ∷ [], none)
    ]

abbrev pub request_failed : String → Printed
request_failed e = text (concat ("[red]请求失败: " ∷ e ∷ "[/red]" ∷ []))

-- What ends a block of prints: rich first, else the block's own exception.
abbrev pub first_error : Option String → Option String → Option String
first_error none own = own
first_error (some e) own = some e

abbrev pub with_error : List Printed → Option String → List Printed
with_error out none = out
with_error out (some e) = out ++ request_failed e ∷ []

-- The block under its `except` clause.
unfoldable pub answer_shown :
    (Printed → Option String) → (Json → String) → ChatResponse → List Printed
unfolding answer_block printed_until
answer_shown shows bad_result r =
    let (wanted, own) = answer_block bad_result r in
    let (out, e) = printed_until shows wanted in with_error out (first_error e own)
