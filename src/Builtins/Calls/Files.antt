-- ===== src/Builtins/Calls/Files.antt =====
-- What a call of a built-in tool does to the files.
use yellowbullv.Shared.{String, ◌≡◌, ◌∙◌, Option, some}
use yellowbullv.Shared.Json.{ℤ}
use yellowbullv.Builtins.{FileSystem, ok, caught}
use yellowbullv.Builtins.ReadFile.{read_file, read_target}
use yellowbullv.Builtins.Laws.{FileLaws, Keeps, pure-Keeps, ask-Keeps, if-Keeps, bind-Keeps}
use yellowbullv.Builtins.Writing.{write_file-others, with_target-Keeps}
use yellowbullv.Builtins.Creating.{create_file_folder-Kept}
use yellowbullv.Builtins.Calls.{
  Host, Call, calculator_call, command_call, create_call, time_call, read_call, write_call,
  search_call, run_call,
}

read_target-Keeps :
    (fs : FileSystem) (P : fs.Store → Type 0) (target : String) (a : ℤ) (b : Option ℤ) (m : ℤ)
    → Keeps P (read_target fs target a b m)
unfolding read_target
read_target-Keeps fs P target a b m = bind-Keeps P _ _ (ask-Keeps P _) (λ there.
    if-Keeps P _ _ _ (pure-Keeps P _) (
      bind-Keeps P _ _ (ask-Keeps P _) (λ file. if-Keeps P _ _ _ (pure-Keeps P _) (
        bind-Keeps P _ _ (ask-Keeps P _) (λ bytes.
          if-Keeps P _ _ _ (pure-Keeps P _)
            (bind-Keeps P _ _ (ask-Keeps P _) (λ text. pure-Keeps P _)))))))

read_file-Keeps :
    (fs : FileSystem) (P : fs.Store → Type 0) (path : String) (a : ℤ) (b : Option ℤ) (m : ℤ)
    (st : fs.Store)
    → P st
    → P (read_file fs path a b m st).1
unfolding read_file
read_file-Keeps fs P path a b m st h =
    with_target-Keeps P (caught "Read failed: ") (fs.resolve path st)
      (λ target. read_target fs target a b m) (λ target _. read_target-Keeps fs P target a b m) st h

-- A call may change the file at `q`: a shell command and an expression that is evaluated may change any,
-- and a writing call the one that its path resolves to.
abbrev pub MayChange : (fs : FileSystem) → Call → String → fs.Store → Type 0
MayChange fs (calculator_call e) q st = Unit
MayChange fs (command_call c d t) q st = Unit
MayChange fs (write_call p c a d) q st = fs.resolve p st ≡ ok q
MayChange fs _ q st = ⊥

-- A file that is there keeps its text through every call of a built-in tool, however it ends, but for a
-- shell command, for an expression of the calculator, and for `write_file` on a path that resolves to
-- the file.
pub run_call-kept :
    (host : Host) (laws : FileLaws host.files) (call : Call) (q t : String) (st : host.files.Store)
    → laws.content q st ≡ some t
    → ¬ MayChange host.files call q st
    → laws.content q (run_call host call st).1 ≡ some t
unfolding run_call
run_call-kept host laws (calculator_call e) q t st h free = absurd (free tt)
run_call-kept host laws (command_call c d n) q t st h free = absurd (free tt)
run_call-kept host laws (create_call p k c r) q t st h free =
    create_file_folder-Kept host.files laws q t p k c r st h
run_call-kept host laws (time_call z) q t st h free = h
run_call-kept host laws (read_call p a b m) q t st h free =
    read_file-Keeps host.files (λ s. laws.content q s ≡ some t) p a b m st h
run_call-kept host laws (write_call p c a d) q t st h free =
    write_file-others host.files laws p c q a d st free ∙ h
run_call-kept host laws (search_call p n) q t st h free = h
