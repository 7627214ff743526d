-- ===== src/Builtins/ReadFile.antt =====
-- tools/builtins/file_read.py: `ReadFileTool.execute`.
use yellowbullv.Shared.{
  ℕ, ◌-◌, ◌*◌, String, Option, none, some, Bool, true, not, ◌||◌, List, [], ◌∷◌, length, min, max,
  ltb, ◌==◌, if◌then◌else◌, cat, concat, join, show_nat, is_some,
}
use yellowbullv.Shared.Json.{ℤ, pos, negsuc}
use yellowbullv.Tools.{ToolResult}
use yellowbullv.Builtins.{
  FileSystem, Io, ◌>>=◌, pure, ask, Run, result, failure, caught, with_target,
}
use yellowbullv.Builtins.Lines.{show_int, split_lines, rstrip, slice}

-- `size > max_bytes * 10`
abbrev pub too_large : ℕ → ℤ → Bool
too_large size (pos m) = ltb (m * 10) size
too_large size (negsuc m) = true

-- `if start_line < 1: start_line = 1`
abbrev pub clamped : ℤ → ℕ
clamped (pos n) = max 1 n
clamped (negsuc n) = 1

-- `min(end_line or total_lines, total_lines)`
unfoldable pub actual_end : Option ℤ → ℕ → ℤ
actual_end none total = pos total
actual_end (some (pos n)) total = if n == 0 then pos total else pos (min n total)
actual_end (some (negsuc n)) total = negsuc n

-- What stands above the text: the file's line, and the lines shown unless all are asked for.
unfoldable pub info_parts : String → ℕ → ℕ → ℕ → Option ℤ → List String
unfolding actual_end
info_parts target total size start end_line =
    concat ("File: " ∷ target ∷ " (" ∷ show_nat total ∷ " lines, " ∷ show_nat size ∷ " bytes)" ∷ [])
    ∷ (if not (start == 1) || is_some end_line
        then concat
            ("Showing lines " ∷ show_nat start ∷ "-" ∷ show_int (actual_end end_line total) ∷ [])
          ∷ []
        else [])

-- The text of a successful answer.
unfoldable pub shown : String → ℕ → ℕ → Option ℤ → String → String
unfolding info_parts
shown target size start end_line text =
    let lines = split_lines text in
    cat (join "\n" (info_parts target (length lines) size start end_line))
      (cat "\n---\n" (rstrip (concat (slice (start - 1) end_line lines))))

abbrev pub too_large_answer : ℕ → ℤ → ToolResult
too_large_answer size max_bytes = failure (
    concat (
      "File too large ("
      ∷ show_nat size
      ∷ " bytes). Use start_line/end_line to read a specific range, "
      ∷ "or increase max_bytes (current limit: "
      ∷ show_int max_bytes
      ∷ ")."
      ∷ []))

module _ (fs : FileSystem) where
  open fs use {Store, resolve, exists, is_file, size, read_text}

  -- The block once the path is resolved.
  unfoldable pub read_target : String → ℤ → Option ℤ → ℤ → Io Store ToolResult
  unfolding shown
  read_target target start_line end_line max_bytes = do
    there ← ask (exists target)
    if not there then pure (failure (cat "File not found: " target)) else do
      file ← ask (is_file target)
      if not file then pure (failure (cat "Not a file: " target)) else do
        bytes ← ask (size target)
        if too_large bytes max_bytes then pure (too_large_answer bytes max_bytes) else do
          text ← ask (read_text target)
          pure (result (shown target bytes (clamped start_line) end_line text))

  unfoldable pub read_file : String → ℤ → Option ℤ → ℤ → Store → Run × Store
  read_file filepath start_line end_line max_bytes st =
      with_target (caught "Read failed: ") (resolve filepath st)
        (λ target. read_target target start_line end_line max_bytes) st
