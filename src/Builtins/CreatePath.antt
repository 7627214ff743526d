-- ===== src/Builtins/CreatePath.antt =====
-- tools/builtins/create_file_folder.py: `CreateFileFolderTool.execute`.
use yellowbullv.Shared.{
  String, Option, none, some, or_empty, Bool, true, false, [], ◌∷◌, if◌then◌else◌, cat, concat,
  show_nat, str_eq,
}
use yellowbullv.Tools.{ToolResult}
use yellowbullv.Builtins.{
  FileSystem, overwrite, Io, ◌>>=◌, ◌>>◌, pure, ask, Run, returned, result, failure, Failure,
  permission_error, file_exists, other_error, denied, with_target, is_relative, refusal,
}

-- The `except` clauses.
unfoldable pub create_failed : Option String → Failure → Run
create_failed target (permission_error e) = denied target
create_failed (some target) (file_exists e) =
    returned (failure (cat "Path already exists: " target))
create_failed none (file_exists e) = denied none
create_failed target (other_error e) = returned (failure (cat "Create failed: " e))

module _ (fs : FileSystem) where
  open fs use {Store, resolve, parent, exists, size, mkdir, write}

  -- `if recursive and not target.parent.exists(): target.parent.mkdir(parents=True, exist_ok=True)`
  unfoldable pub make_missing : Bool → String → Io Store (Unit {0})
  make_missing false target = pure tt
  make_missing true target = do
    there ← ask (exists (parent target))
    if there then pure tt else mkdir true (parent target)

  -- The branch of each kind.
  unfoldable pub create_directory : String → Bool → Io Store ToolResult
  create_directory target recursive = do
    mkdir recursive target
    pure (result (cat "Directory created: " target))

  unfoldable pub create_file : String → Option String → Bool → Io Store ToolResult
  unfolding make_missing
  create_file target content recursive = do
    make_missing recursive target
    write overwrite target (or_empty content)
    bytes ← ask (size target)
    pure (result (concat ("File created: " ∷ target ∷ " (" ∷ show_nat bytes ∷ " bytes)" ∷ [])))

  abbrev pub invalid_kind : String → ToolResult
  invalid_kind kind =
      failure (concat ("Invalid kind '" ∷ kind ∷ "'. Must be 'file' or 'directory'." ∷ []))

  -- The block once the path is resolved.
  unfoldable pub create_target : String → String → Option String → Bool → Io Store ToolResult
  unfolding create_directory create_file
  create_target target kind content recursive = do
    there ← ask (exists target)
    if there
        then pure (failure (cat "Path already exists: " target))
        else if str_eq kind "directory"
        then create_directory target recursive
        else if str_eq kind "file"
        then create_file target content recursive
        else pure (invalid_kind kind)

  unfoldable pub create_file_folder : String → String → Option String → Bool → Store → Run × Store
  create_file_folder path kind content recursive st =
      if is_relative path
      then (returned (refusal path), st)
      else with_target create_failed (resolve path st)
          (λ target. create_target target kind content recursive) st
