-- ===== src/Builtins/Creating.antt =====
-- `create_file_folder` on the texts of a file system.
use yellowbullv.Shared.{
  String, ◌≡◌, refl, ap, ◌∙◌, ◌≢◌, Option, some, or_empty, Bool, true, false, cat, arith,
  if◌then◌else◌, Bool-cases, inl, inr, str_eq,
}
use yellowbullv.Tools.{ToolResult}
use yellowbullv.Builtins.{
  FileSystem, Raises, ok, raised, overwrite, Io, ◌>>=◌, pure, ask, is_relative, failure,
}
use yellowbullv.Builtins.CreatePath.{
  make_missing, create_directory, create_file, create_target, create_file_folder, create_failed,
  invalid_kind,
}
use yellowbullv.Builtins.Laws.{FileLaws, Keeps, pure-Keeps, ask-Keeps, if-Keeps, bind-Keeps}
use yellowbullv.Builtins.Writing.{Holds, mkdir-Keeps, write-Keeps, with_target-Keeps}

module _ (fs : FileSystem) (laws : FileLaws fs) (q t : String) where
  abbrev Kept : fs.Store → Type 0
  Kept = Holds fs laws q (some t)

  mkdir-Kept : (parents : Bool) (p : String) → Keeps Kept (fs.mkdir parents p)
  mkdir-Kept = mkdir-Keeps fs laws q (some t)

  make_missing-Kept :
      (recursive : Bool) (target : String) → Keeps Kept (make_missing fs recursive target)
  unfolding make_missing
  make_missing-Kept false target = pure-Keeps Kept _
  make_missing-Kept true target =
      bind-Keeps Kept _ _ (ask-Keeps Kept _)
        (λ there. if-Keeps Kept there _ _ (pure-Keeps Kept _) (mkdir-Kept true _))

  create_file-Kept :
      (target : String) (content : Option String) (recursive : Bool)
      → target ≢ q
      → Keeps Kept (create_file fs target content recursive)
  unfolding create_file
  create_file-Kept target content recursive ne =
      bind-Keeps Kept _ _ (make_missing-Kept recursive target) (λ _.
        bind-Keeps Kept _ _ (write-Keeps fs laws q (some t) overwrite target (or_empty content) ne)
          (λ _. bind-Keeps Kept _ _ (ask-Keeps Kept _) (λ bytes. pure-Keeps Kept _)))

  create_directory-Kept :
      (target : String) (recursive : Bool) → Keeps Kept (create_directory fs target recursive)
  unfolding create_directory
  create_directory-Kept target recursive =
      bind-Keeps Kept _ _ (mkdir-Kept recursive target) (λ _. pure-Keeps Kept _)

  -- The block behind the question whether the path exists, on a path that is not the file's.
  abbrev rest : String → String → Option String → Bool → Bool → Io fs.Store ToolResult
  rest target kind content recursive there =
      if there
      then pure (failure (cat "Path already exists: " target))
      else if str_eq kind "directory"
      then create_directory fs target recursive
      else if str_eq kind "file"
      then create_file fs target content recursive
      else pure (invalid_kind fs kind)

  rest-Kept :
      (target kind : String) (content : Option String) (recursive there : Bool)
      → (there ≡ false → target ≢ q)
      → Keeps Kept (rest target kind content recursive there)
  rest-Kept target kind content recursive true ne = pure-Keeps Kept _
  rest-Kept target kind content recursive false ne =
      if-Keeps Kept (str_eq kind "directory") _ _ (create_directory-Kept target recursive) (
        if-Keeps Kept (str_eq kind "file") _ _ (create_file-Kept target content recursive (ne refl))
          (pure-Keeps Kept _))

  asked-Kept :
      (target kind : String) (content : Option String) (recursive : Bool) (st : fs.Store)
      → (answer : Raises Bool) → fs.exists target st ≡ answer
      → Kept st
      → Kept
          (let go : Raises ToolResult × fs.Store = elim answer [
            | ok there ↦ rest target kind content recursive there st
            | raised e ↦ (raised e, st)
          ] in
            go).1
  asked-Kept target kind content recursive st (raised e) asked h = h
  asked-Kept target kind content recursive st (ok there) asked h =
      rest-Kept target kind content recursive there
        (λ absent same.
          let empty = laws.exists-content target st (asked ∙ ap ok absent) in
          let full = ap (λ p. laws.content p st) same ∙ h in ground arith)
        st h

  create_target-Kept :
      (target kind : String) (content : Option String) (recursive : Bool)
      → Keeps Kept (create_target fs target kind content recursive)
  unfolding create_target ◌>>=◌ ask
  create_target-Kept target kind content recursive st h =
      asked-Kept target kind content recursive st (fs.exists target st) refl h

  -- `create_file_folder` never changes the text of a file that is there, whatever the path, the kind
  -- and the content are, and however the call ends.
  pub create_file_folder-Kept :
      (path kind : String) (content : Option String) (recursive : Bool) (st : fs.Store)
      → laws.content q st ≡ some t
      → laws.content q (create_file_folder fs path kind content recursive st).1 ≡ some t
  unfolding create_file_folder
  create_file_folder-Kept path kind content recursive st h = elim (Bool-cases (is_relative path)) [
    | inl e ↦ rw e h
    | inr e ↦ rw e (
        with_target-Keeps Kept create_failed (fs.resolve path st)
          (λ target. create_target fs target kind content recursive)
          (λ target _. create_target-Kept target kind content recursive) st h)
  ]
