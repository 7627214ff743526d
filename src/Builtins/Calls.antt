-- ===== src/Builtins/Calls.antt =====
-- A call of a tool of tools/builtins/ by name: its keyword arguments bound to the signature of
-- `execute`, with the defaults, and the call of `execute`.
pub mod Typed
pub mod Files
use yellowbullv.Shared.{
  ℕ, String, Option, none, some, Bool, true, false, List, [], ◌∷◌, all, if◌then◌else◌, is_some,
}
use yellowbullv.Shared.Json.{ℤ, pos, negsuc, Json, null, bool, int, float, str, arr, obj}
use yellowbullv.Dict.{Dict, lookup, contains}
use yellowbullv.Tools.{ToolInfo, ToolResult}
use yellowbullv.Builtins.{Run, returned, FileSystem, Io}
use yellowbullv.Builtins.ReadFile
use yellowbullv.Builtins.WriteFile
use yellowbullv.Builtins.CreatePath
use yellowbullv.Builtins.Command
use yellowbullv.Builtins.Command.{Shell}
use yellowbullv.Builtins.Lookups.{Search, Clock}
use yellowbullv.Builtins.Lookups
use yellowbullv.Builtins.Infos.{
  calculator_info, execute_command_info, create_file_folder_info, current_time_info, read_file_info,
  write_file_info, web_search_info,
}

-- The tools, in the order in which `__init__.py` registers them.
pub data Builtin : Type 0 where
  calculator execute_command create_file_folder current_time : Builtin
  read_file write_file web_search : Builtin

abbrev pub info_of : Builtin → ToolInfo
info_of calculator = calculator_info
info_of execute_command = execute_command_info
info_of create_file_folder = create_file_folder_info
info_of current_time = current_time_info
info_of read_file = read_file_info
info_of write_file = write_file_info
info_of web_search = web_search_info

-- A call with its arguments, in the order of the signature.
pub data Call : Type 0 where
  calculator_call : String → Call
  command_call : String → Option String → ℤ → Call
  create_call : String → String → Option String → Bool → Call
  time_call : String → Call
  read_call : String → ℤ → Option ℤ → ℤ → Call
  write_call : String → String → Bool → Bool → Call
  search_call : String → ℤ → Call

-- A value at the type that the signature has for it. A `bool` is an `int`.
abbrev pub as_str : Json → Option String
as_str (str s) = some s
as_str _ = none

abbrev pub as_int : Json → Option ℤ
as_int (int n) = some n
as_int (bool true) = some (pos 1)
as_int (bool false) = some (pos 0)
as_int _ = none

abbrev pub as_bool : Json → Option Bool
as_bool (bool b) = some b
as_bool _ = none

abbrev pub as_some {ℓ} : {A : Type ℓ} → Option A → Option (Option A)
as_some none = none
as_some (some a) = some (some a)

-- A value at a type that `None` belongs to.
abbrev pub or_none {ℓ} : {A : Type ℓ} → (Json → Option A) → Json → Option (Option A)
or_none read null = some none
or_none read v = as_some (read v)

infixl 5 ◌>>=◌
unfoldable pub ◌>>=◌ {ℓ κ} : {A : Type ℓ} {B : Type κ} → Option A → (A → Option B) → Option B
none >>= f = none
some a >>= f = f a

module _ {ℓ} {A : Type ℓ} where
  -- An argument without a default, and one with a default.
  unfoldable pub required : (Json → Option A) → String → Dict Json → Option A
  required read name params = elim (lookup name params) [ none ↦ none | some v ↦ read v ]

  unfoldable pub default : (Json → Option A) → A → String → Dict Json → Option A
  default read value name params = elim (lookup name params) [ none ↦ some value | some v ↦ read v ]

-- Binding to the signature. `none` is the `TypeError` of a missing argument, or else a value of another
-- type than the signature gives: Python binds that one and goes on with it, which is not modelled.
unfoldable pub bind_known : Builtin → Dict Json → Option Call
unfolding ◌>>=◌ required default
bind_known calculator params = do
  expression ← required as_str "expression" params
  some (calculator_call expression)
bind_known execute_command params = do
  command ← required as_str "command" params
  workdir ← default (or_none as_str) none "workdir" params
  timeout ← default as_int (pos 60) "timeout" params
  some (command_call command workdir timeout)
bind_known create_file_folder params = do
  path ← required as_str "path" params
  kind ← default as_str "file" "kind" params
  content ← default (or_none as_str) none "content" params
  recursive ← default as_bool true "recursive" params
  some (create_call path kind content recursive)
bind_known current_time params = do
  timezone ← default as_str "UTC" "timezone" params
  some (time_call timezone)
bind_known read_file params = do
  filepath ← required as_str "filepath" params
  start_line ← default as_int (pos 1) "start_line" params
  end_line ← default (or_none as_int) none "end_line" params
  max_bytes ← default as_int (pos 102400) "max_bytes" params
  some (read_call filepath start_line end_line max_bytes)
bind_known write_file params = do
  filepath ← required as_str "filepath" params
  content ← required as_str "content" params
  append ← default as_bool false "append" params
  create_dirs ← default as_bool true "create_dirs" params
  some (write_call filepath content append create_dirs)
bind_known web_search params = do
  query ← required as_str "query" params
  max_results ← default as_int (pos 5) "max_results" params
  some (search_call query max_results)

-- The keyword arguments are all among the parameters of the signature, which are the properties of the
-- schema.
abbrev pub is_known : Builtin → Dict Json → Bool
is_known b params = all (λ p. contains p.0 (info_of b).parameters.properties) params

unfoldable pub bind_call : Builtin → Dict Json → Option Call
unfolding bind_known
bind_call b params = if is_known b params then bind_known b params else none

-- What the tools reach: files, the shell, the search engine, `eval` and the clock.
pub record Host : Type 1 where
  pub files : FileSystem
  pub shell : Shell files.Store
  pub ddgs : String → ℤ → Search
  pub evaluate : String → Io files.Store String
  pub clock : Clock

-- `tool.execute(…)`
unfoldable pub run_call : (host : Host) → Call → host.files.Store → Run × host.files.Store
run_call host (calculator_call e) st =
    let (r, st') = Lookups.calculator host.evaluate e st in (returned r, st')
run_call host (command_call c d t) st =
    let (r, st') = Command.execute_command host.files host.shell c d t st in (returned r, st')
run_call host (create_call p k c r) st = CreatePath.create_file_folder host.files p k c r st
run_call host (time_call z) st = (returned (Lookups.current_time host.clock z), st)
run_call host (read_call p a b m) st = ReadFile.read_file host.files p a b m st
run_call host (write_call p c a d) st = WriteFile.write_file host.files p c a d st
run_call host (search_call q n) st = (returned (Lookups.web_search host.ddgs q n), st)
