-- ===== src/Repl/Start.antt =====
-- The question for the working directory, and the whole of `run_cli` on what is typed.
use yellowbullv.Shared.{
  String, none, some, Bool, true, false, List, [], ◌∷◌, ◌++◌, if◌then◌else◌, is_empty, concat,
}
use yellowbullv.Shared.Json.{Json}
use yellowbullv.Dict.{Dict}
use yellowbullv.Session.{Session}
use yellowbullv.Agent.{Services, AgentConfig}
use yellowbullv.Repl.Words.{strip}
use yellowbullv.Repl.{
  Input, line, interrupted, Printed, text, panel, Made, made, os_error, other_error, Terminal, Repl,
  goes_on, left, crashed, farewell, printed_until, not_made, create_in, ensure_dir, turn,
}

-- Where `run_cli` stands when the input is used up: it asks for the folder, it waits for a line in this
-- state, or it has ended.
pub data Standing (World : Type 0) : Type 0 where
  asking : Standing World
  prompting : Repl World → Standing World
  exited : Standing World
  failed : String → Standing World

-- `_print_welcome`
abbrev pub welcome : String → Printed
welcome work_dir = panel "" (
    concat (
      "[bold blue]YellowBull Agent[/bold blue]\n\n"
      ∷ (if is_empty work_dir then "" else concat ("[dim]工作目录: " ∷ work_dir ∷ "[/dim]\n\n" ∷ []))
      ∷ "[dim]交互式命令行 · 输入 /help 查看命令[/dim]"
      ∷ []))

module _ (sv : Services) (cfg : AgentConfig) (terminal : Terminal sv.World)
    (bad_result : Json → String) where
  open sv use {World}

  -- Prints, and what comes after them; an exception of rich ends the run.
  unfoldable pub before :
      List Printed → List Printed × Standing World → List Printed × Standing World
  unfolding printed_until
  before out rest =
      let (seen, e) = printed_until terminal.shows out in
      elim e [ none ↦ (seen ++ rest.0, rest.1) | some z ↦ (seen, failed z) ]

  -- The loop over the lines that are typed.
  unfoldable pub run : List Input → Repl World → List Printed × Standing World
  unfolding before
  run [] st = ([], prompting st)
  run (i ∷ is) st =
      let (out, next, st') = turn sv cfg terminal bad_result i st in
      let rest = run is st' in
      elim next [
        | goes_on ↦ before out rest
        | left ↦ before out ([], exited)
        | crashed e ↦ before out ([], failed e)
      ]

  -- What making a folder tells.
  abbrev pub made_lines : Bool → String → List Printed
  made_lines true dir = text (concat ("[green]✓ 已创建工作目录: " ∷ dir ∷ "[/green]" ∷ [])) ∷ []
  made_lines false dir = []

  -- The state in which the loop begins.
  unfoldable pub started : String → Dict Session → World → Repl World
  started dir store w =
      let (s, store', w') = create_in sv cfg terminal bad_result dir store w in
      record { current_session_id = s.session_id; work_dir = dir; store = store'; world = w' }

  -- What follows the attempt to make the folder: the question again, the exception that is not caught,
  -- or the welcome and the loop.
  unfoldable pub dir_outcome :
      String
      → Bool
      → Made
      → (asked_again begun : List Printed × Standing World) → List Printed × Standing World
  unfolding before
  dir_outcome dir was_made (os_error e) asked_again begun =
      before (not_made sv cfg terminal bad_result dir e ∷ []) asked_again
  dir_outcome dir was_made (other_error e) asked_again begun = ([], failed e)
  dir_outcome dir was_made made asked_again begun =
      before (made_lines was_made dir ++ welcome dir ∷ []) begun

  -- `_ask_work_dir`, and the loop from there on.
  unfoldable pub run_cli : List Input → Dict Session → World → List Printed × Standing World
  unfolding before run started ensure_dir dir_outcome
  run_cli [] store w = ([], asking)
  run_cli (interrupted ∷ is) store w = before (farewell ∷ []) ([], exited)
  run_cli (line raw ∷ is) store w =
      let dir = terminal.abspath (strip raw) in
      let (was_made, e, w') = ensure_dir sv cfg terminal bad_result dir w in
      let again = run_cli is store w in
      let asked_again = run_cli is store w' in
      if is_empty (strip raw)
      then before (text "[red]工作目录不能为空，请重新输入。[/red]" ∷ []) again
      else dir_outcome dir was_made e asked_again (run is (started dir store w'))
