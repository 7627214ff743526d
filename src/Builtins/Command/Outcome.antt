-- ===== src/Builtins/Command/Outcome.antt =====
-- When a call of `execute_command` succeeds, and what its answer says.
use yellowbullv.Shared.{
  String, ◌≡◌, Option, false, [], ◌∷◌, ◌++◌, if◌then◌else◌, cat, join, is_empty,
}
use yellowbullv.Shared.Json.{ℤ, pos}
use yellowbullv.Tools.{ToolResult}
use yellowbullv.Builtins.{FileSystem, Raises, ok}
use yellowbullv.Builtins.Lines.{rstrip}
use yellowbullv.Builtins.Command.{Process, exited, Shell, folder_part, command_folder, is_absent}

-- The answer about a process that ended with return code 0: its error output is left out.
abbrev pub good_report : String → Option String → String → String
good_report command cwd out = join "\n" (
    "[succeeded]" ∷ cat "$ " command ∷ folder_part cwd
    ++ (if is_empty (rstrip out) then [] else rstrip out ∷ []))

module _ (fs : FileSystem) (sh : Shell fs.Store) (command : String) (timeout : ℤ) where
  -- A command that was run in a folder that is there and ended in time with return code 0.
  pub record Exited (workdir : Option String) (st : fs.Store) (r : ToolResult) : Type 0 where
    pub cwd : Option String
    pub out : String
    pub err : String
    pub folder : command_folder fs workdir st ≡ ok cwd
    pub there : is_absent fs cwd st ≡ ok false
    pub ended : (sh.spawn command cwd timeout st).0 ≡ ok (exited out err (pos 0))
    pub said : r.content ≡ good_report command cwd out

  Good : Option String → Raises Process → ToolResult → Type 0
  Good cwd p r =
      (out : String) × (err : String) × (p ≡ ok (exited out err (pos 0)))
      × (r.content ≡ good_report command cwd out)
