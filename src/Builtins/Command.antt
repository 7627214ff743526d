-- ===== src/Builtins/Command.antt =====
-- tools/builtins/command_execute.py: `ExecuteCommandTool.execute`. The shell is an argument: what a
-- process did within its time, and what starting one raises.
pub mod Outcome
use yellowbullv.Shared.{
  ℕ, String, ◌≡◌, refl, ◌↔◌, Option, none, some, Bool, true, false, not, ◌&&◌, List, [], ◌∷◌, ◌++◌,
  if◌then◌else◌, cat, concat, join, is_empty, or_empty, arith, Bool-cases, inl, inr,
}
use yellowbullv.Shared.Json.{ℤ, pos, negsuc}
use yellowbullv.Tools.{ToolResult}
use yellowbullv.Builtins.{FileSystem, Raises, ok, raised, Failure, failure_text, failure}
use yellowbullv.Builtins.Lines.{show_int, rstrip}

-- A process that ended: its output, decoded, and its return code; or one that was still running when
-- its time was over.
pub data Process : Type 0 where
  exited : (stdout stderr : String) → (returncode : ℤ) → Process
  timed_out : Process

-- `create_subprocess_shell` with `wait_for`, on the command, the folder and the timeout, and
-- `proc.kill()`; what a process does to the files is part of the state `World`.
pub record Shell (World : Type 0) : Type 0 where
  pub spawn : String → Option String → ℤ → World → Raises Process × World
  pub kill : World → Raises (Unit {0}) × World

-- `proc.returncode == 0`
abbrev pub is_zero : ℤ → Bool
is_zero (pos ℕ.zero) = true
is_zero _ = false

-- `if cwd: parts.append(…)`
abbrev pub folder_part : Option String → List String
folder_part none = []
folder_part (some cwd) = concat ("  (in " ∷ cwd ∷ ")" ∷ []) ∷ []

abbrev pub status : ℤ → String
status code =
    if is_zero code then "succeeded" else concat ("failed (exit " ∷ show_int code ∷ ")" ∷ [])

-- The lines of the answer, `out` and `err` being stripped of the white space at their ends.
unfoldable pub report_parts : String → Option String → String → String → ℤ → List String
report_parts command cwd out err code =
    concat ("[" ∷ status code ∷ "]" ∷ []) ∷ cat "$ " command ∷ folder_part cwd
    ++ (if is_empty out then [] else out ∷ [])
    ++ (if not (is_empty err) && not (is_zero code) then cat "STDERR:\n" err ∷ [] else [])

unfoldable pub report : String → Option String → String → String → ℤ → ToolResult
unfolding report_parts
report command cwd stdout stderr code = record {
  content = join "\n" (report_parts command cwd (rstrip stdout) (rstrip stderr) code);
  success = is_zero code;
  error = "";
}

-- `except Exception as e`
abbrev pub execution_failed : Failure → ToolResult
execution_failed e = failure (cat "Execution failed: " (failure_text e))

module _ (fs : FileSystem) where
  open fs use {Store, resolve, exists}

  -- `Path(workdir).resolve() if workdir else None`
  unfoldable pub command_folder : Option String → Store → Raises (Option String)
  command_folder workdir w =
      if is_empty (or_empty workdir)
      then ok none
      else elim (resolve (or_empty workdir) w) [ ok cwd ↦ ok (some cwd) | raised e ↦ raised e ]

  -- `cwd and not cwd.exists()`
  unfoldable pub is_absent : Option String → Store → Raises Bool
  is_absent none w = ok false
  is_absent (some cwd) w = elim (exists cwd w) [ ok there ↦ ok (not there) | raised e ↦ raised e ]

module _ (fs : FileSystem) (sh : Shell fs.Store) where
  open fs use {Store}
  open sh use {spawn, kill}

  unfoldable pub timeout_result : String → ℤ → Store → ToolResult × Store
  timeout_result command timeout w =
      let (r, w') = kill w in
      elim r [
        | raised e ↦ (execution_failed e, w')
        | ok u ↦ (
          failure (concat ("Command timed out after " ∷ show_int timeout ∷ "s:\n" ∷ command ∷ [])),
          w',
        )
      ]

  -- What starting the process and waiting for it ended in.
  unfoldable pub process_result :
      String → Option String → ℤ → Raises Process → Store → ToolResult × Store
  unfolding timeout_result
  process_result command cwd timeout (raised e) w = (execution_failed e, w)
  process_result command cwd timeout (ok timed_out) w = timeout_result command timeout w
  process_result command cwd timeout (ok (exited out err code)) w =
      (report command cwd out err code, w)

  -- From the start of the process on.
  unfoldable pub run_command : String → Option String → ℤ → Store → ToolResult × Store
  unfolding process_result
  run_command command cwd timeout w =
      let (r, w') = spawn command cwd timeout w in process_result command cwd timeout r w'

  -- Once it is known whether the folder is missing.
  unfoldable pub checked : String → Option String → ℤ → Raises Bool → Store → ToolResult × Store
  unfolding run_command
  checked command cwd timeout (raised e) w = (execution_failed e, w)
  checked command cwd timeout (ok true) w =
      (failure (cat "Working directory not found: " (or_empty cwd)), w)
  checked command cwd timeout (ok false) w = run_command command cwd timeout w

  unfoldable pub resolved_in : String → ℤ → Raises (Option String) → Store → ToolResult × Store
  unfolding checked is_absent
  resolved_in command timeout (raised e) w = (execution_failed e, w)
  resolved_in command timeout (ok cwd) w = checked command cwd timeout (is_absent fs cwd w) w

  unfoldable pub execute_command : String → Option String → ℤ → Store → ToolResult × Store
  unfolding command_folder resolved_in
  execute_command command workdir timeout w =
      resolved_in command timeout (command_folder fs workdir w) w
