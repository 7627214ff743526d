-- ===== src/Builtins/Tests.antt =====
-- Runs of the built-in tools on a small file system in memory.
use yellowbullv.Shared.{
  String, ◌≡◌, refl, none, some, true, false, [], ◌∷◌, is_some, arith, str_eq_iff,
}
use yellowbullv.Shared.Json.{ℤ, pos, Json, str, int}
use yellowbullv.Dict.{Dict, lookup, insert}
use yellowbullv.Tools.Schema.{
  validate, required_errors, type_errors, property_errors, is_missing, check_json_schema_type,
  type_map, type_name,
}
use yellowbullv.Builtins.{ok, raised, other_error, result, is_relative, ◌>>=◌, pure, ask}
use yellowbullv.Builtins.Lines.{split_lines, rstrip, newlines, utf8_size, slice}
use yellowbullv.Builtins.ReadFile.{read_file, read_target, shown, info_parts, actual_end}
use yellowbullv.Builtins.WriteFile.{
  write_file, write_target, written, is_folder, size_before, make_parents,
}
use yellowbullv.Builtins.Laws.{ok_inj}
use yellowbullv.Builtins.Command.{
  exited, Shell, execute_command, command_folder, resolved_in, is_absent, checked, run_command,
  process_result, report, report_parts,
}
use yellowbullv.Builtins.Memory.{
  file, folder, Disk, memory_files, memory_files-laws, memory_content, make_path, put_text,
}
use yellowbullv.Builtins.Reading.{Readable, answer, read_file-window, write_file-read_file}
use yellowbullv.Builtins.Lookups.{found}
use yellowbullv.Builtins.Calls
use yellowbullv.Builtins.Calls.{
  Host, Call, write_call, command_call, run_call, info_of, bind_call, is_known, bind_known,
}
use yellowbullv.Builtins.Calls.Files.{run_call-kept}
use yellowbullv.Builtins.Calls.Typed.{bind_call-validate}

abbrev disk : Disk
disk = ("/w", folder) ∷ ("/w/a", file "one\ntwo\r\nthree\n") ∷ []

abbrev written_disk : Disk
written_disk = ("/w", folder) ∷ ("/w/a", file "one\ntwo\r\nthree\n") ∷ ("/w/b", file "hi \n") ∷ []

write_file-read_file_example :
    read_file memory_files "/w/b" (pos 1) none (pos 100) written_disk
    ≡ (answer "/w/b" 1 4 1 none "hi", written_disk)
unfolding write_file write_target written is_folder size_before make_parents is_relative ◌>>=◌ pure
    ask make_path put_text lookup insert utf8_size newlines split_lines rstrip
write_file-read_file_example =
    write_file-read_file memory_files memory_files-laws "/w/b" "/w/b" "hi \n" "hi \n" true disk
      written_disk (result (written false "/w/b" 0 4 "hi \n")) refl refl refl refl (pos 100) refl

disk-Readable : Readable memory_files "/w/a" "/w/a" "one\ntwo\nthree\n" 15 disk
unfolding lookup utf8_size newlines
disk-Readable = record { resolved = refl; there = refl; file = refl; sized = refl; opened = refl }

read_file-window_example :
    read_file memory_files "/w/a" (pos 2) (some (pos 3)) (pos 100) disk
    ≡ (answer "/w/a" 3 15 2 (some (pos 3)) "two\nthree", disk)
unfolding split_lines rstrip read_file read_target shown info_parts actual_end ◌>>=◌ pure ask slice
read_file-window_example =
    read_file-window memory_files "/w/a" "/w/a" "one\ntwo\nthree\n" 15 disk disk-Readable
      ("one\n" ∷ []) ("two\n" ∷ "three\n" ∷ []) [] refl (pos 100) refl

-- A shell whose commands print the command and return `code`.
abbrev echo : ℤ → Shell Disk
echo code = record {
  spawn = λ c cwd t st. (ok (exited c "warning" code), st);
  kill = λ st. (ok tt, st);
}

abbrev host : Host
host = record {
  files = memory_files;
  shell = echo (pos 0);
  ddgs = λ q n. found [];
  evaluate = λ e st. (raised (other_error "no names"), st);
  clock = record {
    Zone = String;
    utc = "UTC";
    zone_info = λ z. ok z;
    now = λ z. ok "2025-01-01 00:00:00 UTC";
  };
}

abbrev write_b : Call
write_b = write_call "/w/b" "hi" false true

run_call-kept_example :
    memory_files-laws.content "/w/a" (run_call host write_b disk).1 ≡ some "one\ntwo\r\nthree\n"
unfolding lookup
run_call-kept_example =
    run_call-kept host memory_files-laws write_b "/w/a" "one\ntwo\r\nthree\n" disk
      (memory_content "/w/a" disk)
      (λ e. let same = (str_eq_iff "/w/b" "/w/a").1 (ok_inj "/w/b" "/w/a" e) in ground arith)

abbrev params : Dict Json
params = ("filepath", str "/w/a") ∷ ("end_line", int (pos 2)) ∷ []

bind_call-validate_example : is_some (bind_call Calls.read_file params) ≡ true
unfolding validate required_errors type_errors property_errors is_missing check_json_schema_type
    type_map type_name lookup
bind_call-validate_example =
    bind_call-validate (λ ks. ks) Calls.read_file params (λ k ks. refl) refl refl

-- The error output of a command that succeeds is not shown.
silent_warning :
    (execute_command memory_files (echo (pos 0)) "ls" (some "/w") (pos 60) disk).0.content
    ≡ "[succeeded]\n$ ls\n  (in /w)\nls"
unfolding execute_command command_folder resolved_in is_absent checked run_command process_result
    report report_parts rstrip lookup
silent_warning = refl

-- An `end_line` of 0 shows no line under a headline that names all of them.
nothing_shown :
    (slice {A = String} 0 (some (pos 0)) ("x\n" ∷ "y\n" ∷ []) ≡ [])
    × (actual_end (some (pos 0)) 2 ≡ pos 2)
unfolding slice actual_end
nothing_shown = (refl, refl)
