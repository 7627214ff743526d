-- ===== src/Builtins.antt =====
-- tools/builtins/: the tools that come with the program. The file system is an argument: what
-- `pathlib` and `open` do on it are the operations of `FileSystem`, which may raise.
pub mod Lines
pub mod ReadFile
pub mod WriteFile
pub mod CreatePath
pub mod Laws
pub mod Writing
pub mod Reading
pub mod Creating
pub mod Memory
pub mod Command
pub mod Infos
pub mod Lookups
pub mod Calls
mod Tests
use yellowbullv.Shared.{
  ℕ, String, Option, none, some, Bool, true, false, not, ◌&&◌, ◌||◌, List, [], ◌∷◌, cat, concat,
  starts_with, take_text,
}
use yellowbullv.Tools.{ToolResult}
use Prim.Native.String
use Prim.Native.Char.{code}
use yellowbullv.Shared.{◌==◌}

-- The exceptions that the tools tell apart, with their text.
pub data Failure : Type 0 where
  permission_error file_exists other_error : String → Failure

-- `f"{e}"`
abbrev pub failure_text : Failure → String
failure_text (permission_error e) = e
failure_text (file_exists e) = e
failure_text (other_error e) = e

pub data Raises (A : Type 0) : Type 0 where
  ok : A → Raises A
  raised : Failure → Raises A

-- A block of statements over the store `S`, which an exception ends.
abbrev pub Io : Type 0 → Type 0 → Type 0
Io S A = S → Raises A × S

infixl 5 ◌>>=◌ ◌>>◌
unfoldable pub ◌>>=◌ : {S A B : Type 0} → Io S A → (A → Io S B) → Io S B
◌>>=◌ m f st = let (r, st') = m st in elim r [ ok a ↦ f a st' | raised e ↦ (raised e, st') ]

abbrev pub ◌>>◌ : {S A B : Type 0} → Io S A → Io S B → Io S B
m >> k = m >>= λ _. k

unfoldable pub pure : {S A : Type 0} → A → Io S A
pure a st = (ok a, st)

-- A question to the store, which leaves it as it is.
unfoldable pub ask : {S A : Type 0} → (S → Raises A) → Io S A
ask f st = (f st, st)

-- How a file is opened for writing: "w" or "a".
pub data Mode : Type 0 where
  overwrite append : Mode

-- The operations of `pathlib.Path` and `open` that the tools use, a resolved path being its text.
-- `mkdir` has `exist_ok=True`, and takes `parents`; `write` opens a file in a mode, writes a text and
-- closes it.
pub record FileSystem : Type 1 where
  pub Store : Type 0
  pub resolve : String → Store → Raises String
  pub parent : String → String
  pub exists : String → Store → Raises Bool
  pub is_dir : String → Store → Raises Bool
  pub is_file : String → Store → Raises Bool
  pub size : String → Store → Raises ℕ
  pub read_text : String → Store → Raises String
  pub mkdir : Bool → String → Io Store (Unit {0})
  pub write : Mode → String → String → Io Store (Unit {0})

-- A call of a tool returns, or an exception leaves it.
pub data Run : Type 0 where
  returned : ToolResult → Run
  escaped : String → Run

-- `ToolResult(content=…)` and `ToolResult(content=…, success=False)`
abbrev pub result : String → ToolResult
result content = record { content = content; success = true; error = "" }

abbrev pub failure : String → ToolResult
failure content = record { content = content; success = false; error = "" }

-- `":" in s`
abbrev pub has_colon : String → Bool
has_colon String.[] = false
has_colon (String.◌∷◌ c s) = code c == 58 || has_colon s

-- `not path.startswith(("/", "\\",)) and ":" not in path[:2]`
unfoldable pub is_relative : String → Bool
is_relative path =
    not (starts_with path "/" || starts_with path "\\") && not (has_colon (take_text 2 path))

-- `f"Permission denied: {target}"` in the `except PermissionError` clause: the name is bound once the
-- path has been resolved, and not bound yet while it is.
abbrev pub denied : Option String → Run
denied (some target) = returned (failure (cat "Permission denied: " target))
denied none = escaped "cannot access local variable 'target'"

-- The `except` clauses of `read_file` and `write_file`, by what their last one says.
unfoldable pub caught : String → Option String → Failure → Run
caught said target (permission_error e) = denied target
caught said target (file_exists e) = returned (failure (cat said e))
caught said target (other_error e) = returned (failure (cat said e))

-- The result of a block under its `except` clauses.
abbrev pub settle : (Failure → Run) → Raises ToolResult → Run
settle handler (ok r) = returned r
settle handler (raised e) = handler e

-- The whole of `execute`: `target = Path(…).resolve()`, the block that uses it, and the clauses.
abbrev pub with_target :
    {S : Type 0}
    → (Option String → Failure → Run)
    → Raises String
    → (String → Io S ToolResult)
    → S
    → Run × S
with_target handler (raised e) block st = (handler none e, st)
with_target handler (ok target) block st =
    let (r, st') = block target st in (settle (handler (some target)) r, st')

-- The answer for a path that is not absolute.
abbrev pub refusal : String → ToolResult
refusal path = record {
  content = concat (
      "Relative paths are not accepted. "
      ∷ "Please provide an absolute path (e.g., D:\\project\\file.py). Got: " ∷ path ∷ []);
  success = false;
  error = "relative_path_not_allowed";
}
