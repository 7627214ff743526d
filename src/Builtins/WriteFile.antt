-- ===== src/Builtins/WriteFile.antt =====
-- tools/builtins/file_write.py: `WriteFileTool.execute`.
use yellowbullv.Shared.{
  ℕ, String, Bool, true, false, [], ◌∷◌, if◌then◌else◌, cat, concat, show_nat, str_length,
}
use yellowbullv.Tools.{ToolResult}
use yellowbullv.Builtins.{
  FileSystem, Mode, overwrite, append, Io, ◌>>=◌, ◌>>◌, pure, ask, Run, returned, result, failure,
  caught, with_target, is_relative, refusal,
}

-- `mode = "a" if append else "w"`
abbrev pub mode_of : Bool → Mode
mode_of true = append
mode_of false = overwrite

unfoldable pub written : Bool → String → ℕ → ℕ → String → String
written appending target before after content = concat (
    "Successfully "
    ∷ (if appending then "appended to" else "wrote to")
    ∷ " "
    ∷ target
    ∷ "\nPrevious size: "
    ∷ show_nat before
    ∷ " bytes\nNew size: "
    ∷ show_nat after
    ∷ " bytes\nWritten: "
    ∷ show_nat (str_length content)
    ∷ " chars"
    ∷ [])

module _ (fs : FileSystem) where
  open fs use {Store, resolve, parent, exists, is_dir, size, mkdir, write}

  -- `target.exists() and target.is_dir()`
  unfoldable pub is_folder : String → Io Store Bool
  is_folder target = do
    there ← ask (exists target)
    if there then ask (is_dir target) else pure false

  -- `target.stat().st_size if target.exists() else 0`
  unfoldable pub size_before : String → Io Store ℕ
  size_before target = do there ← ask (exists target); if there then ask (size target) else pure 0

  -- `if create_dirs: target.parent.mkdir(parents=True, exist_ok=True)`
  unfoldable pub make_parents : Bool → String → Io Store (Unit {0})
  make_parents create_dirs target = if create_dirs then mkdir true (parent target) else pure tt

  -- The block once the path is resolved.
  unfoldable pub write_target : String → String → Bool → Bool → Io Store ToolResult
  unfolding is_folder size_before make_parents
  write_target target content appending create_dirs = do
    folder ← is_folder target
    if folder then pure (failure (cat "Path exists and is a directory: " target)) else do
      make_parents create_dirs target
      before ← size_before target
      write (mode_of appending) target content
      after ← ask (size target)
      pure (result (written appending target before after content))

  unfoldable pub write_file : String → String → Bool → Bool → Store → Run × Store
  write_file filepath content appending create_dirs st =
      if is_relative filepath
      then (returned (refusal filepath), st)
      else with_target (caught "Write failed: ") (resolve filepath st)
          (λ target. write_target target content appending create_dirs) st
