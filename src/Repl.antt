-- ===== src/Repl.antt =====
-- cli/repl.py: the interactive command line as a state machine over the lines that are typed. The
-- terminal shows what is printed; folders are made by the argument `Terminal`.
mod Words
pub mod Screen
pub mod Run
pub mod Start
pub mod Listing
pub mod Whole
mod Tests
use yellowbullv.Shared.{
  ℕ, String, Option, none, some, or_empty, str_or, Bool, true, false, not, ◌&&◌, ◌||◌, ◌⊎◌, inl,
  inr, List, [], ◌∷◌, ◌++◌, map, if◌then◌else◌, is_empty, is_nonempty, str_eq, starts_with, cat,
  concat, take_text, last_slice,
}
use yellowbullv.Shared.Json.{Json, Fields, str, obj, fields}
use yellowbullv.Dict.{Dict, lookup, insert}
use yellowbullv.Session.{
  MessageRole, system, user, assistant, tool, Message, Session, fresh_session,
}
use yellowbullv.Sessions.{create, get, list_sessions}
use yellowbullv.Sessions.Memory.{memory}
use yellowbullv.Agent.{
  Services, AgentConfig, ChatRequest, ChatResponse, Answer, answered, failed, chat,
}
use yellowbullv.Repl.Words.{strip, behind_word, first_word}
pub use yellowbullv.Repl.Screen.{
  Printed, text, panel, markdown, cleared, farewell, help_panel, no_messages, request_failed,
}
unfoldable pub use yellowbullv.Repl.Screen.{
  history_line, print_history, result_panel, result_panels, printed_until, answer_block,
  answer_shown, tool_panel,
}

-- What the user does at the prompt: a line, or `KeyboardInterrupt` or the end of the input.
pub data Input : Type 0 where
  line : String → Input
  interrupted : Input

-- How `os.makedirs(…, exist_ok=True)` ends: the folder is there, or an `OSError`, or another exception,
-- as for a path with a NUL character in it.
pub data Made : Type 0 where
  made : Made
  os_error other_error : String → Made

-- `os.path.abspath`, `os.path.isdir`, `os.makedirs` and `str.lower`; and rich, which may refuse to show
-- something, for instance a text whose square brackets it cannot read as markup: `shows` is the
-- exception that it then raises.
pub record Terminal (World : Type 0) : Type 0 where
  pub abspath : String → String
  pub isdir : String → World → Bool
  pub makedirs : String → World → Made × World
  pub lower : String → String
  pub shows : Printed → Option String

abbrev pub user_id : String
user_id = "cli_user"

pub record Repl (World : Type 0) : Type 0 where
  pub current_session_id : String
  pub work_dir : String
  pub store : Dict Session
  pub world : World

-- What a line comes to: the loop goes on, it is left, or an exception leaves it.
pub data Next : Type 0 where
  goes_on left : Next
  crashed : String → Next

-- The commands, by the tests on `cmd`.
pub data Command : Type 0 where
  quit help workdir new sessions history clear : Command
  unknown : String → Command

unfoldable pub read_command : String → Command
read_command cmd =
    if str_eq cmd "/quit" || str_eq cmd "/exit" || str_eq cmd "/q"
    then quit
    else if str_eq cmd "/help"
    then help
    else if str_eq cmd "/workdir"
    then workdir
    else if str_eq cmd "/new"
    then new
    else if str_eq cmd "/sessions"
    then sessions
    else if str_eq cmd "/history"
    then history
    else if str_eq cmd "/clear"
    then clear
    else unknown cmd

module _ (sv : Services) (cfg : AgentConfig) (terminal : Terminal sv.World)
    (bad_result : Json → String) where
  open sv use {World, uuid, tick}

  -- `agent.session_manager.create(user_id)`, and `session.work_dir = …` on the session that it stored.
  unfoldable pub create_in : String → Dict Session → World → Session × Dict Session × World
  create_in work_dir store w =
      let (id, w1) = uuid w in
      let (created, w2) = tick w1 in
      let (updated, w3) = tick w2 in
      let (s, store1) = create memory id user_id created updated store in
      let s' : Session = record s { work_dir = some work_dir } in
      (s', insert s'.session_id s' store1, w3)

  -- The folder is there, or is made; else the error.
  unfoldable pub ensure_dir : String → World → Bool × Made × World
  ensure_dir dir w =
      if terminal.isdir dir w
      then (false, made, w)
      else let (e, w') = terminal.makedirs dir w in (true, e, w')

  -- `sess.work_dir = new_dir` on the current session, if there is one.
  unfoldable pub put_work_dir : String → String → Dict Session → Dict Session
  put_work_dir id dir store = if is_empty id then store else elim (get memory id store) [
    | none ↦ store
    | some s ↦ insert id (record s { work_dir = some dir }) store
  ]

  abbrev pub current_dir : String → Printed
  current_dir dir =
      if is_empty dir
      then text "[dim]未设置工作目录[/dim]"
      else text (concat ("[dim]当前工作目录: " ∷ dir ∷ "[/dim]" ∷ []))

  abbrev pub not_made : String → String → Printed
  not_made dir e = text (concat ("[red]无法创建目录 " ∷ dir ∷ ": " ∷ e ∷ "[/red]" ∷ []))

  -- What follows the attempt to make the folder: `continue` with the error, the exception that is not
  -- caught, or the change.
  unfoldable pub dir_changed : String → Made → World → Repl World → List Printed × Next × Repl World
  unfolding put_work_dir
  dir_changed dir (os_error e) w st = (not_made dir e ∷ [], goes_on, record st { world = w })
  dir_changed dir (other_error e) w st = ([], crashed e, record st { world = w })
  dir_changed dir made w st = (
    text (concat ("[green]✓ 工作目录已更改为: " ∷ dir ∷ "[/green]" ∷ [])) ∷ [],
    goes_on,
    record st {
      work_dir = dir;
      store = put_work_dir st.current_session_id dir st.store;
      world = w;
    },
  )

  -- `/workdir` with a path
  unfoldable pub change_dir : String → Repl World → List Printed × Next × Repl World
  unfolding ensure_dir dir_changed
  change_dir path st =
      let dir = terminal.abspath (strip path) in
      let (was_made, e, w) = ensure_dir dir st.world in dir_changed dir e w st

  unfoldable pub workdir_command : String → Repl World → List Printed × Next × Repl World
  unfolding change_dir
  workdir_command input st =
      let (out, next, st') = change_dir (behind_word input) st in
      if is_empty (behind_word input)
      then (current_dir st.work_dir ∷ [], goes_on, st)
      else (current_dir st.work_dir ∷ out, next, st')

  -- The folder that `/new` hands on.
  unfoldable pub inherited_dir : Repl World → String
  inherited_dir st =
      if is_empty st.current_session_id
      then st.work_dir
      else elim (get memory st.current_session_id st.store) [
        | none ↦ st.work_dir
        | some s ↦ str_or (or_empty s.work_dir) st.work_dir
      ]

  unfoldable pub new_command : Repl World → List Printed × Repl World
  unfolding inherited_dir create_in
  new_command st =
      let dir = inherited_dir st in
      let (s, store, w) = create_in dir st.store st.world in
      (
        text "[green]✓ 已创建新会话[/green]" ∷ [],
        record { current_session_id = s.session_id; work_dir = dir; store = store; world = w },
      )

  -- `/sessions`: a session has no method `model_dump`.
  unfoldable pub sessions_command : Repl World → List Printed × Next
  sessions_command st = elim (list_sessions memory (some user_id) st.store) [
    | [] ↦ (text "[dim]暂无会话[/dim]" ∷ [], goes_on)
    | s ∷ ss ↦ ([], crashed "'Session' object has no attribute 'model_dump'")
  ]

  unfoldable pub history_command : Repl World → List Printed
  unfolding print_history
  history_command st =
      if is_empty st.current_session_id
      then text "[dim]请先发送一条消息创建会话[/dim]" ∷ []
      else elim (get memory st.current_session_id st.store) [
        | none ↦ no_messages ∷ []
        | some s ↦ print_history s.messages
      ]

  -- The branch of a command, on the line that it stands in.
  unfoldable pub run_command : Command → String → Repl World → List Printed × Next × Repl World
  unfolding workdir_command new_command sessions_command history_command
  run_command quit input st = (farewell ∷ [], left, st)
  run_command help input st = (help_panel ∷ [], goes_on, st)
  run_command workdir input st = workdir_command input st
  run_command new input st = let (out, st') = new_command st in (out, goes_on, st')
  run_command sessions input st = let (out, next) = sessions_command st in (out, next, st)
  run_command history input st = (history_command st, goes_on, st)
  run_command clear input st = (cleared ∷ [], goes_on, st)
  run_command (unknown cmd) input st =
      (text (concat ("[red]未知命令: " ∷ cmd ∷ "，输入 /help 查看帮助[/red]" ∷ [])) ∷ [], goes_on, st)

  -- A line that begins with "/".
  unfoldable pub command : String → Repl World → List Printed × Next × Repl World
  unfolding run_command
  command input st = run_command (read_command (terminal.lower (first_word input))) input st

  -- What follows the call of `chat`.
  unfoldable pub after_answer :
      Answer → Dict Session → World → Repl World → List Printed × Repl World
  unfolding answer_shown
  after_answer (answered r) store w st = (
    text "" ∷ answer_shown terminal.shows bad_result r,
    record st { current_session_id = r.session_id; store = store; world = w },
  )
  after_answer (failed e) store w st =
      (text "" ∷ request_failed e ∷ [], record st { store = store; world = w })

  unfoldable pub talk : String → Repl World → List Printed × Repl World
  unfolding after_answer
  talk input st =
      let req : ChatRequest = record {
        session_id = some st.current_session_id;
        user_id = user_id;
        message = input;
      } in
      let (answer, store, w) = chat sv cfg req st.store st.world in after_answer answer store w st

  -- One round of the loop.
  unfoldable pub turn : Input → Repl World → List Printed × Next × Repl World
  unfolding command talk
  turn interrupted st = (farewell ∷ [], left, st)
  turn (line raw) st =
      let input = strip raw in
      let (out, st') = talk input st in
      if is_empty input
      then ([], goes_on, st)
      else if starts_with input "/"
      then command input st
      else (out, goes_on, st')
